-- ===== src/Client/Api.antt =====
-- The requests of `dap::Client`: each takes the next sequence number, notes in a queue what the
-- response will need, and sends its tree.
use debugger_dap.Common.{ℕ, ◌+◌, Bool, true, not, ◌||◌, List, [], ◌∷◌, ◌++◌, String, if◌then◌else◌}
use debugger_dap.Common.Int.{int_of, ℤ, pos, eq_ℤ}
use debugger_dap.Text.{Text, codes}
use debugger_dap.Json.{Node}
use debugger_dap.Protocol.{not_found}
use debugger_dap.Protocol.Requests.{
  Source, SourceBreakpoint, FunctionBreakpoint, request_to, with_arguments, is_positive,
  next_arguments_to, step_arguments_to, continue_arguments_to, scopes_arguments_to,
  stack_trace_arguments_to, variables_arguments_to, pause_arguments_to, source_arguments_to,
  evaluate_arguments_to, set_breakpoints_arguments_to, breakpoint_locations_arguments_to,
  read_memory_arguments_to,
}
use debugger_dap.Protocol.Control.{
  Environment, launch_arguments_to, attach_arguments_to, disconnect_arguments_to,
  terminate_arguments_to, set_function_breakpoints_arguments_to,
  set_exception_breakpoints_arguments_to, disassemble_arguments_to, goto_arguments_to,
  goto_targets_arguments_to,
}
use debugger_dap.Client.State.{
  Client, goto_targets_request, in_progress, Context, variables, watch, repl, hover, clipboard,
  is_supported, breakpoint_locations_request, read_memory_request,
}
use debugger_dap.Client.Send.{Library, Action, send_request}

-- `SteppingGranularity`
pub data Granularity : Type 0 where
  line statement instruction : Granularity

abbrev pub granularity_name : Granularity → Text
granularity_name line = codes "line"
granularity_name statement = codes "statement"
granularity_name instruction = codes "instruction"

abbrev pub context_name : Context → Text
context_name clipboard = codes "clipboard"
context_name hover = codes "hover"
context_name repl = codes "repl"
context_name variables = codes "variables"
context_name watch = codes "watch"

-- `GetNextSequence`
unfoldable pub next_sequence : Client → Client
next_sequence c = record c { sequence = c.sequence + 1 }

-- `req = MakeRequest() = MakeRequest()`: the right operand is evaluated first, and its number is
-- the one that the request keeps; the left one takes a second number.
unfoldable pub next_sequence_twice : Client → Client
next_sequence_twice c = record c { sequence = c.sequence + 2 }

-- `threadId == wxNOT_FOUND ? GetActiveThreadId() : threadId`
unfoldable pub thread_or_active : Client → ℤ → ℤ
thread_or_active c thread_id = if eq_ℤ thread_id not_found then c.active_thread else thread_id

-- The member functions that send a request.
pub data Command : Type 0 where
  -- `Initialize`, with the tree of its arguments
  initialize : Node → Command
  set_breakpoints_file : Text → List SourceBreakpoint → Command
  configuration_done : Command
  get_threads : Command
  get_scopes : ℤ → Command
  -- the first frame and the number of frames are not sent
  get_frames : ℤ → Command
  next : ℤ → Bool → Granularity → Command
  continue : ℤ → Bool → Command
  step_in : ℤ → Bool → Granularity → Command
  step_out : ℤ → Bool → Command
  get_children_variables : ℤ → Context → ℤ → Bool → Command
  pause : ℤ → Command
  breakpoint_locations : Text → ℤ → ℤ → Command
  read_memory : Text → ℤ → ℤ → Command
  load_source : Source → ℕ → Command
  evaluate_expression : Text → ℤ → Context → ℕ → Bool → Command
  -- the program, its arguments, the working directory and the environment
  launch : Text → List Text → Text → Environment → Command
  set_exception_breakpoints : List Text → Command
  set_function_breakpoints : List FunctionBreakpoint → Command
  -- `resolveSymbols` is always sent as true
  get_disassemble : ℕ → ℤ → ℤ → ℤ → Command
  -- the filter and the start are not sent
  get_variable_info : ℤ → ℤ → Bool → Command
  goto : ℤ → ℤ → Command
  goto_target : Text → ℤ → ℤ → Command
  attach : ℤ → Command
  disconnect : Bool → Bool → Command
  terminate : Bool → Command

module _ (library : Library) where
  -- A request under the number that `MakeRequest` gave it.
  unfoldable pub make_and_send : String → Node → Action
  unfolding next_sequence
  make_and_send command arguments c =
      let numbered = next_sequence c in
      send_request library (with_arguments (int_of numbered.sequence) command arguments) numbered

  -- The same where the number was taken twice.
  unfoldable pub make_twice_and_send : String → Node → Action
  unfolding next_sequence_twice
  make_twice_and_send command arguments c =
      send_request library (with_arguments (int_of (c.sequence + 1)) command arguments)
        (next_sequence_twice c)

  unfoldable pub make_twice_and_send_bare : String → Action
  unfolding next_sequence_twice
  make_twice_and_send_bare command c =
      send_request library (request_to (int_of (c.sequence + 1)) command) (next_sequence_twice c)

  -- `Initialize` sets the state after it has sent, also if sending failed.
  unfoldable pub initialize_action : Node → Action
  unfolding make_and_send
  initialize_action arguments c =
      let (c', effects) = make_and_send "initialize" arguments c in
      (record c' { handshake = in_progress }, effects)

  unfoldable pub breakpoint_locations_action : Text → ℤ → ℤ → Action
  unfolding make_and_send
  breakpoint_locations_action filepath start_line end_line c =
      let source : Source = record { name = []; path = filepath; source_reference = pos 0 } in
      let (c', effects) =
        make_and_send "breakpointLocations"
          (breakpoint_locations_arguments_to source start_line not_found end_line not_found) c in
      if is_supported c breakpoint_locations_request
      then (
        record c' { request_files = c'.request_files ++ (c.sequence + 1, filepath) ∷ [] },
        effects,
      )
      else (c, [])

  unfoldable pub perform : Command → Action
  unfolding initialize_action breakpoint_locations_action make_and_send make_twice_and_send
      make_twice_and_send_bare thread_or_active
  perform (initialize arguments) c = initialize_action arguments c
  perform (set_breakpoints_file file lines) c =
      let source : Source = record {
        name = library.full_name file;
        path = file;
        source_reference = pos 0;
      } in
      make_twice_and_send "setBreakpoints" (set_breakpoints_arguments_to source lines)
        (record c { breakpoints_queue = c.breakpoints_queue ++ file ∷ [] })
  perform configuration_done c = make_twice_and_send_bare "configurationDone" c
  perform get_threads c = make_twice_and_send_bare "threads" c
  perform (get_scopes frame_id) c =
      make_twice_and_send "scopes" (scopes_arguments_to frame_id)
        (record c { scopes_queue = c.scopes_queue ++ frame_id ∷ [] })
  perform (get_frames thread_id) c =
      let thread = thread_or_active c thread_id in
      make_and_send "stackTrace" (stack_trace_arguments_to thread)
        (record c { frames_queue = c.frames_queue ++ thread ∷ [] })
  perform (next thread_id single_thread granularity) c =
      make_and_send "next"
        (next_arguments_to (thread_or_active c thread_id) (granularity_name granularity)
          single_thread)
        c
  perform (continue thread_id all_threads) c =
      let thread = thread_or_active c thread_id in
      make_and_send "continue"
        (continue_arguments_to thread (not all_threads || eq_ℤ thread not_found)) c
  perform (step_in thread_id single_thread granularity) c =
      make_and_send "stepIn"
        (step_arguments_to (thread_or_active c thread_id) single_thread
          (granularity_name granularity))
        c
  perform (step_out thread_id single_thread) c =
      make_and_send "stepOut"
        (step_arguments_to (thread_or_active c thread_id) single_thread (codes "line")) c
  perform (get_children_variables reference context count hex) c =
      make_and_send "variables" (variables_arguments_to reference count hex)
        (record c { variables_queue = c.variables_queue ++ (reference, context) ∷ [] })
  perform (pause thread_id) c =
      make_and_send "pause" (pause_arguments_to (thread_or_active c thread_id)) c
  perform (breakpoint_locations filepath start_line end_line) c =
      breakpoint_locations_action filepath start_line end_line c
  perform (read_memory reference offset count) c =
      if is_supported c read_memory_request
      then make_and_send "readMemory" (read_memory_arguments_to reference offset count) c
      else (c, [])
  perform (load_source source callback) c =
      if is_positive source.source_reference
      then make_and_send "source" (source_arguments_to source source.source_reference)
          (record c { sources_queue = c.sources_queue ++ callback ∷ [] })
      else (c, [])
  perform (evaluate_expression expression frame_id context callback hex) c =
      make_and_send "evaluate"
        (evaluate_arguments_to expression frame_id (context_name context) hex)
        (record c { evaluate_queue = c.evaluate_queue ++ callback ∷ [] })
  perform (launch program args cwd env) c =
      make_twice_and_send "launch" (launch_arguments_to program args cwd env)
        (record c { active_thread = not_found })
  perform (set_exception_breakpoints filters) c =
      make_and_send "setExceptionBreakpoints" (set_exception_breakpoints_arguments_to filters) c
  perform (set_function_breakpoints breakpoints) c =
      make_and_send "setFunctionBreakpoints" (set_function_breakpoints_arguments_to breakpoints) c
  perform (get_disassemble address offset instruction_offset instruction_count) c =
      make_and_send "disassemble"
        (disassemble_arguments_to (library.hex_address address) offset instruction_offset
          instruction_count true)
        c
  perform (get_variable_info reference count hex) c =
      make_and_send "variables" (variables_arguments_to reference count hex) c
  perform (goto thread_id target_id) c =
      make_and_send "goto" (goto_arguments_to thread_id target_id) c
  perform (goto_target file row column) c =
      let path = library.full_path file in
      let source : Source = record { name = path; path = path; source_reference = pos 0 } in
      if is_supported c goto_targets_request
      then make_and_send "gotoTargets" (goto_targets_arguments_to source row column) c
      else (c, [])
  perform (attach pid) c = make_and_send "attach" (attach_arguments_to pid) c
  perform (disconnect terminates restart) c =
      make_and_send "disconnect" (disconnect_arguments_to restart terminates) c
  perform (terminate restart) c = make_and_send "terminate" (terminate_arguments_to restart) c
