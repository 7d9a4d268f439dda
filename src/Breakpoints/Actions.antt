-- ===== src/Breakpoints/Actions.antt =====
-- The operations of DBG_DAP_Breakpoints (src/DebugAdapterClient/DAP_Breakpoints.cpp). Messages to the
-- log and the reloading of the dialogs are left out. `none` is a fault: see Breakpoints/Update.
use mathlib.Core.Option
use debugger_dap.Common.{
  ℕ, ◌+◌, Bool, true, false, not, ◌&&◌, ◌||◌, List, [], ◌∷◌, ◌++◌, Option, none, some, ◌==◌,
  if◌then◌else◌, find?, length,
}
use debugger_dap.Common.Int.{ℤ, eq_ℤ}
use debugger_dap.Text.{Text, text_eq}
use debugger_dap.DebuggerState.{is_running, is_stopped}
use debugger_dap.Client.Api.{continue, set_breakpoints_file}
use debugger_dap.Protocol.{not_found}
use debugger_dap.Breakpoints.State.{
  BreakpointType, code, DapBreakpoint, minus_one, placed, get_location, ResetDataType, StartType,
  unknown, normal, startup, all_data, Host, TextMap, State, set_object, tell,
}
use debugger_dap.Breakpoints.FileMap.{update_file_map}
use debugger_dap.Breakpoints.Update.{update_dap}

abbrev pub same : Bool → Bool → Bool
same true b = b
same false b = not b

-- `GetBreakpointByID`
unfoldable pub get_breakpoint_by_id : ℤ → State → Option ℕ
get_breakpoint_by_id id s = find? (λ r. eq_ℤ (s.objects r).id id) s.breakpoints

-- The test of `FindBreakpoint`.
unfoldable pub is_at : ℕ → Text → ℤ → DapBreakpoint → Bool
is_at project filename line b =
    b.project == project && (text_eq b.filename filename && eq_ℤ b.line line)

-- `FindBreakpoint`
unfoldable pub find_breakpoint : ℕ → Text → ℤ → State → Option ℕ
unfolding is_at
find_breakpoint project filename line s =
    find? (λ r. is_at project filename line (s.objects r)) s.breakpoints

-- The file whose name for the debugger this is, or the name itself.
unfoldable pub source_name : Text → TextMap Text → Text
source_name filename [] = filename
source_name filename ((source, name) ∷ names) =
    if text_eq name filename then source else source_name filename names

-- `SetIsEnabled` and the update, where the breakpoint is not as it should be.
unfoldable pub enable_object : Host → Text → Bool → ℕ → State → Option State
unfolding set_object update_dap
enable_object host filename enable r s =
    let b = s.objects r in
    if same b.enabled enable
    then some s
    else update_dap host filename (set_object s r (record b { enabled = enable }))

-- A breakpoint that is at the place already.
unfoldable pub update_found : Host → Text → Bool → ℤ → ℕ → State → Option State
unfolding enable_object set_object
update_found host filename enable id r s =
    let b = s.objects r in
    let numbered = if eq_ℤ id minus_one then s else set_object s r (record b { id = id }) in
    enable_object host filename enable r numbered

-- `new DAPBreakpoint(…)`, in the file map and behind the others
unfoldable pub push_new : Host → Text → ℤ → ℤ → State → State
unfolding update_file_map set_object placed
push_new host filename line id s =
    let b = placed (host.project_of filename) filename line id in
    let made : State = let t = set_object s s.fresh b in record t { fresh = s.fresh + 1 } in
    let mapped = update_file_map host filename s.fresh true made in
    record mapped { breakpoints = mapped.breakpoints ++ s.fresh ∷ [] }

-- No breakpoint has the number: the one at the place is updated, or a new one made.
unfoldable pub by_place : Host → Text → ℤ → Bool → ℤ → Option ℕ → State → Option (ℕ × State)
unfolding update_found push_new update_dap
by_place host filename line enable id (some r) s =
    Option.map (λ t. (r, t)) (update_found host filename enable id r s)
by_place host filename line enable id none s =
    Option.map (λ t. (s.fresh, t)) (update_dap host filename (push_new host filename line id s))

unfoldable pub by_number : Host → Text → ℤ → Bool → ℤ → Option ℕ → State → Option (ℕ × State)
unfolding enable_object by_place find_breakpoint
by_number host filename line enable id (some r) s =
    Option.map (λ t. (r, t)) (enable_object host filename enable r s)
by_number host filename line enable id none s =
    by_place host filename line enable id
      (find_breakpoint (host.project_of filename) filename line s) s

-- `UpdateOrAddBreakpoint`, with the breakpoint that it returns
unfoldable pub update_or_add : Host → Text → ℤ → Bool → ℤ → State → Option (ℕ × State)
unfolding by_number get_breakpoint_by_id source_name
update_or_add host filename line enable id s =
    by_number host (source_name filename s.dap_names) line enable id
      (if eq_ℤ id minus_one then none else get_breakpoint_by_id id s) s

-- `AddBreakpoint`
unfoldable pub add_breakpoint : Host → Text → ℤ → State → Option (ℕ × State)
unfolding update_or_add
add_breakpoint host filename line s = update_or_add host filename line true minus_one s

-- `std::find` over the pointers
unfoldable pub has_pointer : ℕ → List ℕ → Bool
has_pointer pointer [] = false
has_pointer pointer (r ∷ rest) = if r == pointer then true else has_pointer pointer rest

unfoldable pub erase_pointer : ℕ → List ℕ → List ℕ
erase_pointer pointer [] = []
erase_pointer pointer (r ∷ rest) =
    let kept = erase_pointer pointer rest in if r == pointer then rest else r ∷ kept

-- The breakpoint leaves the file map and the container.
unfoldable pub drop_object : Host → Text → ℕ → State → State
unfolding update_file_map erase_pointer
drop_object host filename pointer s =
    let mapped = update_file_map host filename pointer false s in
    record mapped { breakpoints = erase_pointer pointer mapped.breakpoints }

-- The switch over the type: only a breakpoint in the code is deleted.
unfoldable pub delete_by_type : Host → BreakpointType → ℕ → State → Option State
unfolding get_location drop_object update_dap
delete_by_type host code pointer s =
    let filename = get_location (s.objects pointer) in
    update_dap host filename (drop_object host filename pointer s)
delete_by_type host _ pointer s = some s

-- `DeleteBreakpoint`
unfoldable pub delete_breakpoint : Host → ℕ → State → Option State
unfolding delete_by_type has_pointer
delete_breakpoint host pointer s =
    if has_pointer pointer s.breakpoints
    then delete_by_type host (s.objects pointer).type pointer s
    else some s

-- An empty list of lines for every file of the map.
unfoldable pub clear_files : Host → TextMap (List ℕ) → State → State
unfolding tell
clear_files host [] s = s
clear_files host ((filename, _) ∷ rest) s =
    clear_files host rest (tell host (set_breakpoints_file filename []) s)

-- `DeleteAllBreakpoints`
unfoldable pub delete_all_breakpoints : Host → State → State
unfolding clear_files is_running
delete_all_breakpoints host s =
    let cleared = if is_running s.flags then clear_files host s.file_map s else s in
    record cleared { file_map = []; dap_names = []; breakpoints = [] }

-- The write through the iterator that `std::find` returned before the call: it is a fault where the
-- call pushed a breakpoint, since `push_back` may invalidate it.
unfoldable pub enable_found : ℕ → Bool → List ℕ → ℕ × State → Option State
unfolding set_object
enable_found pointer enable before (r, t) =
    if length t.breakpoints == length before
    then some
        (set_object t pointer (let now = t.objects pointer in record now { enabled = enable }))
    else none

-- `EnableBreakpoint`
unfoldable pub enable_breakpoint : Host → ℕ → Bool → State → Option State
unfolding has_pointer is_running update_or_add get_location set_object enable_found
enable_breakpoint host pointer enable s =
    let b = s.objects pointer in
    if has_pointer pointer s.breakpoints
    then if same b.enabled enable
      then some s
      else if is_running s.flags
      then Option.bind (update_or_add host (get_location b) b.line enable b.id s)
          (enable_found pointer enable s.breakpoints)
      else some (set_object s pointer (record b { enabled = enable }))
    else some s

-- `DAPDebuggerResetData`
unfoldable pub reset_data : ResetDataType → State → State
reset_data normal s = s
reset_data startup s = record s { file_map = []; dap_names = [] }
reset_data all_data s = record s { breakpoints = []; file_map = []; dap_names = [] }

-- `CleanupWhenProjectClosed`, but for the file that it writes
unfoldable pub cleanup_when_project_closed : State → State
cleanup_when_project_closed s = record s { breakpoints = []; file_map = []; dap_names = [] }

unfoldable pub is_unknown : StartType → Bool
is_unknown unknown = true
is_unknown _ = false

-- `CompilerFinished`
unfoldable pub compiler_finished : Bool → StartType → State → State
unfolding is_unknown
compiler_finished compiler_failed start s =
    if compiler_failed || is_unknown start then record s { temporary_breakpoints = [] } else s

-- `AddBreakpoint` and `SetIsTemporary`
unfoldable pub add_temporary : Host → Text → ℤ → State → Option State
unfolding add_breakpoint set_object
add_temporary host filename line s =
    Option.map
      (λ r. set_object r.1 r.0 (let b = State.objects r.1 r.0 in record b { temporary = true }))
      (add_breakpoint host filename line s)

-- `RunToCursor`
unfoldable pub run_to_cursor : Host → Text → ℤ → State → Option State
unfolding add_temporary is_running is_stopped tell
run_to_cursor host filename line s =
    if is_running s.flags
    then if is_stopped s.flags
      then Option.map (tell host (continue not_found true)) (add_temporary host filename line s)
      else some s
    else add_temporary host filename line s
