-- ===== src/Breakpoints/Events.antt =====
-- The start of a session and the events of the client (src/DebugAdapterClient/DAP_Breakpoints.cpp).
use mathlib.Core.Option
use debugger_dap.Common.{
  ℕ, ◌+◌, Bool, true, not, ◌&&◌, ◌||◌, List, [], ◌∷◌, ◌++◌, Option, none, some, length, take, drop,
  filter, ◌==◌, if◌then◌else◌,
}
use debugger_dap.Common.Int.{ℤ, pos, eq_ℤ, ◌+ℤ◌}
use debugger_dap.Text.{Text, codes, find, find_char}
use debugger_dap.Protocol.{not_found}
use debugger_dap.Protocol.Requests.{FunctionBreakpoint}
use debugger_dap.Client.Api.{
  get_frames, get_threads, set_function_breakpoints, set_exception_breakpoints,
}
use debugger_dap.Breakpoints.State.{
  minus_one, get_location, StartType, unknown, step_into, Host, TextMap, State, tell, synced,
}
use debugger_dap.Breakpoints.FileMap.{update_file_map}
use debugger_dap.Breakpoints.Update.{update_dap}
use debugger_dap.Breakpoints.Actions.{get_breakpoint_by_id, update_or_add, delete_breakpoint}

-- A breakpoint whose line is a number enters the file map.
unfoldable pub map_object : Host → ℕ → Option ℤ → State → State
unfolding update_file_map
map_object host r none s = s
map_object host r (some _) s = update_file_map host (s.objects r).filename r true s

-- The first two loops of `CreateStartBreakpoints`.
unfoldable pub map_objects : Host → List ℕ → State → State
unfolding map_object
map_objects host [] s = s
map_objects host (r ∷ rest) s =
    map_objects host rest (map_object host r (host.to_long (host.format_int (s.objects r).line)) s)

-- The third loop, over the files of the map.
unfoldable pub update_files : Host → TextMap (List ℕ) → State → Option State
unfolding update_dap
update_files host [] s = some s
update_files host ((filename, _) ∷ rest) s =
    Option.bind (update_dap host filename s) (update_files host rest)

-- `CreateStartBreakpoints`
unfoldable pub create_start_breakpoints : Host → State → Option State
unfolding map_objects update_files
create_start_breakpoints host s =
    let mapped = map_objects host s.temporary_breakpoints (map_objects host s.breakpoints s) in
    Option.map (λ t. let done : State = record t { temporary_breakpoints = [] } in done)
      (update_files host mapped.file_map mapped)

-- The function breakpoint of a session that starts by a step.
unfoldable pub break_on_main : Host → StartType → State → State
unfolding tell
break_on_main host step_into s =
    let main : FunctionBreakpoint = record { name = codes "main"; condition = [] } in
    let told : State = tell host (set_function_breakpoints (main ∷ [])) s in
    record told { start_type = unknown }
break_on_main host _ s = s

-- The filters that the settings ask for.
unfoldable pub wanted_filters : Host → List Text → List Text
wanted_filters host filters =
    filter
      (λ f.
        host.same_but_case f (codes "cpp_catch") && host.exception_catch
        || host.same_but_case f (codes "cpp_throw") && host.exception_throw)
      filters

unfoldable pub send_filters : Host → List Text → State → State
unfolding tell
send_filters host [] s = s
send_filters host (f ∷ filters) s = tell host (set_exception_breakpoints (f ∷ filters)) s

unfoldable pub set_filters : Host → State → State
unfolding wanted_filters send_filters
set_filters host s =
    if host.exception_catch || host.exception_throw
    then send_filters host (wanted_filters host s.exception_filters) s
    else s

-- `OnInitializedEvent`
unfoldable pub on_initialized_event : Host → State → Option State
unfolding create_start_breakpoints break_on_main set_filters
on_initialized_event host s =
    Option.map (λ t. set_filters host (break_on_main host (State.start_type t) t))
      (create_start_breakpoints host s)

-- `OnInitializeResponse`: whether it succeeded, and its exception filters, where it has any
unfoldable pub on_initialize_response : Bool → Option (List Text) → State → State
on_initialize_response true (some filters) s = record s { exception_filters = filters }
on_initialize_response _ _ s = s

-- A breakpoint of the response to setBreakpoints.
pub record Reply : Type 0 where
  pub id : ℤ
  pub verified : Bool
  pub line : ℤ
  pub path : Text

-- The loop over the breakpoints at the line of a reply that names no file. They are taken from the
-- container as it was before, which grows at its end only.
unfoldable pub number_lines : Host → Reply → List ℕ → State → Option State
unfolding update_or_add get_location
number_lines host reply [] s = some s
number_lines host reply (r ∷ rest) s =
    let path = get_location (s.objects r) in
    if not (length path == 0) && eq_ℤ (s.objects r).line reply.line
    then Option.bind (update_or_add host path reply.line true reply.id s)
        (λ n. number_lines host reply rest n.1)
    else number_lines host reply rest s

unfoldable pub take_reply : Host → Reply → State → Option State
unfolding number_lines update_or_add
take_reply host reply s =
    if not (eq_ℤ reply.line minus_one) && reply.verified
    then if not (length reply.path == 0)
      then Option.map (λ n. n.1) (update_or_add host reply.path reply.line true reply.id s)
      else number_lines host reply s.breakpoints s
    else some s

-- `OnBreakpointDataSet`
unfoldable pub on_breakpoint_data_set : Host → List Reply → State → Option State
unfolding take_reply
on_breakpoint_data_set host [] s = some s
on_breakpoint_data_set host (reply ∷ rest) s =
    Option.bind (take_reply host reply s) (on_breakpoint_data_set host rest)

-- `hitBreakText`
abbrev pub hit_break_text : Text
hit_break_text = codes "hitBreakpointIds" ++ b'"' ∷ codes ": ["

-- `brkLookup.substr(0, brkLookup.find(']'))`
unfoldable pub up_to : Option ℕ → Text → Text
up_to none lookup = lookup
up_to (some at) lookup = take at lookup

-- The text of the number that was hit, or an exception from the branch that only skips a word.
unfoldable pub id_text : Host → Text → Option ℕ → Option Text
unfolding up_to find_char
id_text host description (some at) =
    let lookup = drop (at + length hit_break_text) description in
    some (up_to (find_char b']' lookup) lookup)
id_text host description none =
    Option.map (λ _. []) (host.substr description (find_char b' ' description))

-- The breakpoint that was hit: the editor shows it, and it is deleted if it is temporary.
unfoldable pub hit_object : Host → Option ℕ → State → Option State
unfolding delete_breakpoint ◌+ℤ◌
hit_object host none s = some s
hit_object host (some r) s =
    let b = s.objects r in
    let shown : State = record s { trace = s.trace ++ synced b.filename (b.line +ℤ pos 1) ∷ [] } in
    if not (length b.filename == 0)
    then if b.temporary then delete_breakpoint host r shown else some shown
    else some s

unfoldable pub hit_number : Host → Option ℤ → State → Option State
unfolding hit_object get_breakpoint_by_id
hit_number host none s = some s
hit_number host (some id) s = hit_object host (get_breakpoint_by_id id s) s

unfoldable pub hit_text : Host → Text → State → Option State
unfolding hit_number
hit_text host [] s = some s
hit_text host (c ∷ text) s = hit_number host (host.to_long (c ∷ text)) s

unfoldable pub process_description : Host → Text → State → Option State
unfolding id_text hit_text find
process_description host [] s = some s
process_description host (c ∷ description) s =
    Option.bind (id_text host (c ∷ description) (find hit_break_text (c ∷ description)))
      (λ text. hit_text host text s)

-- `OnProcessBreakpointData`
unfoldable pub on_process_breakpoint_data : Host → Text → State → Option State
unfolding process_description tell
on_process_breakpoint_data host description s =
    Option.map (λ t. tell host get_threads (tell host (get_frames not_found) t))
      (process_description host description s)
