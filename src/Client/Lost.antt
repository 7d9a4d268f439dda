-- ===== src/Client/Lost.antt =====
-- The commands on a client without a transport (src/DebugAdapterProtocol/Client.cpp).
use debugger_dap.Common.{
  ℕ, ◌+◌, ◌≡◌, refl, sym, ◌⊎◌, inl, inr, Bool, true, false, not, ◌||◌, List, [], ◌∷◌, ◌++◌, String,
  none, subst, if◌then◌else◌,
}
use debugger_dap.Common.Int.{int_of, pos, eq_ℤ}
use debugger_dap.Text.{Text, codes}
use debugger_dap.Json.{Node}
use debugger_dap.Protocol.{not_found}
use debugger_dap.Protocol.Requests.{
  Source, is_positive, request_to, with_arguments, next_arguments_to, step_arguments_to,
  continue_arguments_to, scopes_arguments_to, stack_trace_arguments_to, variables_arguments_to,
  pause_arguments_to, source_arguments_to, evaluate_arguments_to, set_breakpoints_arguments_to,
  breakpoint_locations_arguments_to, read_memory_arguments_to,
}
use debugger_dap.Protocol.Control.{
  launch_arguments_to, attach_arguments_to, disconnect_arguments_to, terminate_arguments_to,
  set_function_breakpoints_arguments_to, set_exception_breakpoints_arguments_to,
  disassemble_arguments_to, goto_arguments_to, goto_targets_arguments_to,
}
use debugger_dap.Client.State.{
  Client, goto_targets_request, in_progress, is_connected, is_supported, read_memory_request,
  breakpoint_locations_request, reset,
}
use debugger_dap.Client.Send
use debugger_dap.Client.Send.{Library, Effect, plain, fired, on_connection_error, send_request}
use debugger_dap.Client.Api
use debugger_dap.Client.Api.{
  Command, granularity_name, context_name, next_sequence, next_sequence_twice, thread_or_active,
  make_and_send, make_twice_and_send, make_twice_and_send_bare, initialize_action,
  breakpoint_locations_action, perform,
}
use debugger_dap.Client.Transmit.{send_request-disconnected}
use debugger_dap.Client.Queues.{Queue, frames, queue}

-- The loss is announced once, and nothing waits in the client any more; no thread reads, and the
-- numbers start again.
pub record IsLost (r : Client × List Effect) : Type 0 where
  pub announced : r.1 ≡ fired Send.lost_connection none plain [] ∷ []
  pub disconnected : is_connected r.0 ≡ false
  pub no_transport : r.0.transport ≡ false
  pub renumbered : r.0.sequence ≡ 0
  pub no_features : r.0.features ≡ []
  pub nothing_waits : (q : Queue) → queue q r.0 ≡ []

on_connection_error-IsLost : (c : Client) → IsLost (on_connection_error c)
unfolding on_connection_error reset is_connected
on_connection_error-IsLost c = record {
  announced = refl;
  disconnected = refl;
  no_transport = refl;
  renumbered = refl;
  no_features = refl;
  nothing_waits = empty;
}
  where
    empty : (q : Queue) → queue q (reset c) ≡ []
    empty frames = refl
    empty _ = refl

module _ (library : Library) where
  send-IsLost :
      (tree : Node) (c : Client) → c.transport ≡ false → IsLost (send_request library tree c)
  send-IsLost tree c e =
      subst IsLost (sym (send_request-disconnected library tree c e)) (on_connection_error-IsLost c)

  once-IsLost :
      (name : String) (arguments : Node) (c : Client)
      → c.transport ≡ false
      → IsLost (make_and_send library name arguments c)
  unfolding make_and_send next_sequence
  once-IsLost name arguments c e =
      send-IsLost (with_arguments (int_of (c.sequence + 1)) name arguments) (next_sequence c) e

  twice-IsLost :
      (name : String) (arguments : Node) (c : Client)
      → c.transport ≡ false
      → IsLost (make_twice_and_send library name arguments c)
  unfolding make_twice_and_send next_sequence_twice
  twice-IsLost name arguments c e =
      send-IsLost (with_arguments (int_of (c.sequence + 1)) name arguments) (next_sequence_twice c)
        e

  bare-IsLost :
      (name : String) (c : Client)
      → c.transport ≡ false
      → IsLost (make_twice_and_send_bare library name c)
  unfolding make_twice_and_send_bare next_sequence_twice
  bare-IsLost name c e =
      send-IsLost (request_to (int_of (c.sequence + 1)) name) (next_sequence_twice c) e

  if-IsLost :
      (b : Bool) (c : Client) (r : Client × List Effect)
      → IsLost r
      → (if b then r else (c, [])) ≡ (c, []) ⊎ IsLost (if b then r else (c, []))
  if-IsLost true c r h = inr h
  if-IsLost false c r h = inl refl

  -- What follows the sending in two of the commands leaves the client lost.
  initialize-IsLost :
      (r : Client × List Effect) → IsLost r → IsLost (record r.0 { handshake = in_progress }, r.1)
  unfolding is_connected
  initialize-IsLost r h = record {
    announced = h.announced;
    disconnected = h.disconnected;
    no_transport = h.no_transport;
    renumbered = h.renumbered;
    no_features = h.no_features;
    nothing_waits = empty;
  }
    where
      empty : (q : Queue) → queue q (record r.0 { handshake = in_progress }) ≡ []
      empty frames = h.nothing_waits frames
      empty q = h.nothing_waits q

  files-IsLost :
      (files : List (ℕ × Text)) (r : Client × List Effect)
      → IsLost r
      → IsLost (record r.0 { request_files = files }, r.1)
  unfolding is_connected
  files-IsLost files r h = record {
    announced = h.announced;
    disconnected = h.disconnected;
    no_transport = h.no_transport;
    renumbered = h.renumbered;
    no_features = h.no_features;
    nothing_waits = empty;
  }
    where
      empty : (q : Queue) → queue q (record r.0 { request_files = files }) ≡ []
      empty frames = h.nothing_waits frames
      empty q = h.nothing_waits q

  -- Without a transport, every command either does nothing at all, or loses the connection: the
  -- loss is announced once and by nothing else, and the client is left disconnected, with no
  -- features, its numbers started again and nothing waiting in any queue.
  pub perform-IsLost :
      (cmd : Command) (c : Client)
      → c.transport ≡ false
      → perform library cmd c ≡ (c, []) ⊎ IsLost (perform library cmd c)
  unfolding perform initialize_action breakpoint_locations_action
  perform-IsLost (Api.initialize arguments) c e = inr (
      initialize-IsLost (make_and_send library "initialize" arguments c)
        (once-IsLost "initialize" arguments c e))
  perform-IsLost (Api.set_breakpoints_file file lines) c e =
      let source : Source = record {
        name = library.full_name file;
        path = file;
        source_reference = pos 0;
      } in
      inr (
        twice-IsLost "setBreakpoints" (set_breakpoints_arguments_to source lines)
          (record c { breakpoints_queue = c.breakpoints_queue ++ file ∷ [] }) e)
  perform-IsLost Api.configuration_done c e = inr (bare-IsLost "configurationDone" c e)
  perform-IsLost Api.get_threads c e = inr (bare-IsLost "threads" c e)
  perform-IsLost (Api.get_scopes frame_id) c e = inr (
      twice-IsLost "scopes" (scopes_arguments_to frame_id)
        (record c { scopes_queue = c.scopes_queue ++ frame_id ∷ [] }) e)
  perform-IsLost (Api.get_frames id) c e = inr (
      once-IsLost "stackTrace" (stack_trace_arguments_to (thread_or_active c id))
        (record c { frames_queue = c.frames_queue ++ thread_or_active c id ∷ [] }) e)
  perform-IsLost (Api.next id single g) c e = inr (
      once-IsLost "next" (next_arguments_to (thread_or_active c id) (granularity_name g) single) c
        e)
  perform-IsLost (Api.continue id all) c e = inr (
      once-IsLost "continue"
        (continue_arguments_to (thread_or_active c id)
          (not all || eq_ℤ (thread_or_active c id) not_found))
        c e)
  perform-IsLost (Api.step_in id single g) c e = inr (
      once-IsLost "stepIn" (step_arguments_to (thread_or_active c id) single (granularity_name g)) c
        e)
  perform-IsLost (Api.step_out id single) c e =
      inr (
        once-IsLost "stepOut" (step_arguments_to (thread_or_active c id) single (codes "line")) c e)
  perform-IsLost (Api.get_children_variables reference context count hex) c e = inr (
      once-IsLost "variables" (variables_arguments_to reference count hex)
        (record c { variables_queue = c.variables_queue ++ (reference, context) ∷ [] }) e)
  perform-IsLost (Api.pause id) c e =
      inr (once-IsLost "pause" (pause_arguments_to (thread_or_active c id)) c e)
  perform-IsLost (Api.breakpoint_locations path first last) c e =
      let source : Source = record { name = []; path = path; source_reference = pos 0 } in
      let arguments = breakpoint_locations_arguments_to source first not_found last not_found in
      let r = make_and_send library "breakpointLocations" arguments c in
      let files = r.0.request_files ++ (c.sequence + 1, path) ∷ [] in
      if-IsLost (is_supported c breakpoint_locations_request) c
        (record r.0 { request_files = files }, r.1)
        (files-IsLost files r (once-IsLost "breakpointLocations" arguments c e))
  perform-IsLost (Api.read_memory reference offset count) c e =
      let arguments = read_memory_arguments_to reference offset count in
      if-IsLost (is_supported c read_memory_request) c
        (make_and_send library "readMemory" arguments c) (once-IsLost "readMemory" arguments c e)
  perform-IsLost (Api.load_source source callback) c e =
      let arguments = source_arguments_to source source.source_reference in
      let c' : Client = record c { sources_queue = c.sources_queue ++ callback ∷ [] } in
      if-IsLost (is_positive source.source_reference) c
        (make_and_send library "source" arguments c') (once-IsLost "source" arguments c' e)
  perform-IsLost (Api.evaluate_expression expression id context callback hex) c e = inr (
      once-IsLost "evaluate" (evaluate_arguments_to expression id (context_name context) hex)
        (record c { evaluate_queue = c.evaluate_queue ++ callback ∷ [] }) e)
  perform-IsLost (Api.set_exception_breakpoints filters) c e =
      inr
        (once-IsLost "setExceptionBreakpoints" (set_exception_breakpoints_arguments_to filters) c e)
  perform-IsLost (Api.set_function_breakpoints functions) c e =
      inr
        (once-IsLost "setFunctionBreakpoints" (set_function_breakpoints_arguments_to functions) c e)
  perform-IsLost (Api.get_disassemble address offset first count) c e = inr (
      once-IsLost "disassemble"
        (disassemble_arguments_to (library.hex_address address) offset first count true) c e)
  perform-IsLost (Api.get_variable_info reference count hex) c e =
      inr (once-IsLost "variables" (variables_arguments_to reference count hex) c e)
  perform-IsLost (Api.goto id target) c e =
      inr (once-IsLost "goto" (goto_arguments_to id target) c e)
  perform-IsLost (Api.attach pid) c e = inr (once-IsLost "attach" (attach_arguments_to pid) c e)
  perform-IsLost (Api.disconnect terminates restart) c e =
      inr (once-IsLost "disconnect" (disconnect_arguments_to restart terminates) c e)
  perform-IsLost (Api.terminate restart) c e =
      inr (once-IsLost "terminate" (terminate_arguments_to restart) c e)
  perform-IsLost (Api.launch program args cwd env) c e = inr (
      twice-IsLost "launch" (launch_arguments_to program args cwd env)
        (record c { active_thread = not_found }) e)
  perform-IsLost (Api.goto_target file line column) c e =
      let path = library.full_path file in
      let source : Source = record { name = path; path = path; source_reference = pos 0 } in
      let arguments = goto_targets_arguments_to source line column in
      if-IsLost (is_supported c goto_targets_request) c
        (make_and_send library "gotoTargets" arguments c) (once-IsLost "gotoTargets" arguments c e)
