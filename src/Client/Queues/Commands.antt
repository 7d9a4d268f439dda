-- ===== src/Client/Queues/Commands.antt =====
-- The queues under the member functions that send a request, on a client with a transport
-- (src/DebugAdapterProtocol/Client.cpp).
use debugger_dap.Common.{
  ℕ, ◌≡◌, sym, Bool, true, false, not, ◌||◌, [], ◌∷◌, ◌++◌, append-nil, if◌then◌else◌,
}
use debugger_dap.Common.Int.{pos, eq_ℤ}
use debugger_dap.Text.{codes}
use debugger_dap.Protocol.{not_found}
use debugger_dap.Protocol.Requests.{
  Source, is_positive, next_arguments_to, step_arguments_to, continue_arguments_to,
  scopes_arguments_to, stack_trace_arguments_to, variables_arguments_to, pause_arguments_to,
  source_arguments_to, evaluate_arguments_to, set_breakpoints_arguments_to,
  read_memory_arguments_to,
}
use debugger_dap.Protocol.Control.{
  launch_arguments_to, attach_arguments_to, disconnect_arguments_to, terminate_arguments_to,
  set_function_breakpoints_arguments_to, set_exception_breakpoints_arguments_to,
  disassemble_arguments_to, goto_arguments_to, goto_targets_arguments_to,
}
use debugger_dap.Client.State.{Client, is_supported, read_memory_request, goto_targets_request}
use debugger_dap.Client.Send.{Library}
use debugger_dap.Client.Api
use debugger_dap.Client.Api.{
  Command, granularity_name, context_name, thread_or_active, make_and_send, perform,
}
use debugger_dap.Client.Queues.{
  Queue, frames, queue, entry, nothing_noted, source_note, frame_note, scope_note, variable_note,
  evaluate_note, file_note, asked, Conserves,
}
use debugger_dap.Client.Queues.Pushed.{
  pushed-frames, pushed-scopes, pushed-variables, pushed-evaluates, pushed-breakpoints,
  pushed-sources, pushed-nothing,
}
use debugger_dap.Client.Queues.Asked.{
  once-Conserves, twice-Conserves, bare-Conserves, plain_once, if-Conserved, initialize-Conserves,
  locations_requested,
}

module _ (library : Library) where
  source_requested :
      (q : Queue) (b : Bool) (source : Source) (callback : ℕ) (c : Client)
      → c.transport ≡ true
      → Conserves q (entry q (if b then source_note callback else nothing_noted)) c (
          if b
          then make_and_send library "source"
              (source_arguments_to source source.source_reference)
              (record c { sources_queue = c.sources_queue ++ callback ∷ [] })
          else (c, []))
  source_requested q true source callback c e =
      once-Conserves library q "source" (source_arguments_to source source.source_reference) c
        (record c { sources_queue = c.sources_queue ++ callback ∷ [] })
        (entry q (source_note callback)) e (pushed-sources q c callback)
  source_requested q false source callback c e = pushed-nothing q c

  queue-launch :
      (q : Queue) (c : Client)
      → queue q (record c { active_thread = not_found }) ≡ queue q c ++ entry q nothing_noted
  queue-launch frames c = sym (append-nil c.frames_queue)
  queue-launch q c = sym (append-nil (queue q c))

  pub perform-Conserves :
      (q : Queue) (cmd : Command) (c : Client)
      → c.transport ≡ true
      → Conserves q (asked q cmd c) c (perform library cmd c)
  unfolding perform
  perform-Conserves q (Api.initialize arguments) c e = initialize-Conserves library q arguments c e
  perform-Conserves q (Api.set_breakpoints_file file lines) c e =
      let source : Source = record {
        name = library.full_name file;
        path = file;
        source_reference = pos 0;
      } in
      twice-Conserves library q "setBreakpoints" (set_breakpoints_arguments_to source lines) c
        (record c { breakpoints_queue = c.breakpoints_queue ++ file ∷ [] })
        (entry q (file_note file)) e (pushed-breakpoints q c file)
  perform-Conserves q Api.configuration_done c e = bare-Conserves library q "configurationDone" c e
  perform-Conserves q Api.get_threads c e = bare-Conserves library q "threads" c e
  perform-Conserves q (Api.get_scopes id) c e =
      twice-Conserves library q "scopes" (scopes_arguments_to id) c
        (record c { scopes_queue = c.scopes_queue ++ id ∷ [] }) (entry q (scope_note id)) e
        (pushed-scopes q c id)
  perform-Conserves q (Api.get_frames id) c e =
      let thread = thread_or_active c id in
      once-Conserves library q "stackTrace" (stack_trace_arguments_to thread) c
        (record c { frames_queue = c.frames_queue ++ thread ∷ [] }) (entry q (frame_note thread)) e
        (pushed-frames q c thread)
  perform-Conserves q (Api.next id single g) c e =
      plain_once library q "next"
        (next_arguments_to (thread_or_active c id) (granularity_name g) single) c e
  perform-Conserves q (Api.continue id all) c e =
      let thread = thread_or_active c id in
      plain_once library q "continue"
        (continue_arguments_to thread (not all || eq_ℤ thread not_found)) c e
  perform-Conserves q (Api.step_in id single g) c e =
      plain_once library q "stepIn"
        (step_arguments_to (thread_or_active c id) single (granularity_name g)) c e
  perform-Conserves q (Api.step_out id single) c e =
      plain_once library q "stepOut"
        (step_arguments_to (thread_or_active c id) single (codes "line")) c e
  perform-Conserves q (Api.get_children_variables reference context count hex) c e =
      once-Conserves library q "variables" (variables_arguments_to reference count hex) c
        (record c { variables_queue = c.variables_queue ++ (reference, context) ∷ [] })
        (entry q (variable_note reference context)) e (pushed-variables q c reference context)
  perform-Conserves q (Api.pause id) c e =
      plain_once library q "pause" (pause_arguments_to (thread_or_active c id)) c e
  perform-Conserves q (Api.breakpoint_locations path first last) c e =
      locations_requested library q path first last c e
  perform-Conserves q (Api.read_memory reference offset count) c e =
      let arguments = read_memory_arguments_to reference offset count in
      if-Conserved library q (is_supported c read_memory_request) c
        (make_and_send library "readMemory" arguments c)
        (plain_once library q "readMemory" arguments c e)
  perform-Conserves q (Api.load_source source callback) c e =
      source_requested q (is_positive source.source_reference) source callback c e
  perform-Conserves q (Api.evaluate_expression expression id context callback hex) c e =
      once-Conserves library q "evaluate"
        (evaluate_arguments_to expression id (context_name context) hex) c
        (record c { evaluate_queue = c.evaluate_queue ++ callback ∷ [] })
        (entry q (evaluate_note callback)) e (pushed-evaluates q c callback)
  perform-Conserves q (Api.set_exception_breakpoints filters) c e =
      plain_once library q "setExceptionBreakpoints"
        (set_exception_breakpoints_arguments_to filters) c e
  perform-Conserves q (Api.set_function_breakpoints functions) c e =
      plain_once library q "setFunctionBreakpoints"
        (set_function_breakpoints_arguments_to functions) c e
  perform-Conserves q (Api.get_disassemble address offset first count) c e =
      plain_once library q "disassemble"
        (disassemble_arguments_to (library.hex_address address) offset first count true) c e
  perform-Conserves q (Api.get_variable_info reference count hex) c e =
      plain_once library q "variables" (variables_arguments_to reference count hex) c e
  perform-Conserves q (Api.goto id target) c e =
      plain_once library q "goto" (goto_arguments_to id target) c e
  perform-Conserves q (Api.attach pid) c e =
      plain_once library q "attach" (attach_arguments_to pid) c e
  perform-Conserves q (Api.disconnect terminates restart) c e =
      plain_once library q "disconnect" (disconnect_arguments_to restart terminates) c e
  perform-Conserves q (Api.terminate restart) c e =
      plain_once library q "terminate" (terminate_arguments_to restart) c e
  perform-Conserves q (Api.launch program args cwd env) c e =
      twice-Conserves library q "launch" (launch_arguments_to program args cwd env) c
        (record c { active_thread = not_found }) (entry q nothing_noted) e (queue-launch q c)
  perform-Conserves q (Api.goto_target file line column) c e =
      let path = library.full_path file in
      let source : Source = record { name = path; path = path; source_reference = pos 0 } in
      let arguments = goto_targets_arguments_to source line column in
      if-Conserved library q (is_supported c goto_targets_request) c
        (make_and_send library "gotoTargets" arguments c)
        (plain_once library q "gotoTargets" arguments c e)
