-- ===== src/Client/Sequence.antt =====
-- The numbers of the requests (src/DebugAdapterProtocol/Client.cpp, Client.hpp).
use debugger_dap.Common.{
  ℕ, ◌+◌, ◌<◌, ◌≡◌, refl, ap, ◌∙◌, ◌⊎◌, inl, inr, Bool, true, false, not, ◌||◌, List, [], ◌∷◌, ◌++◌,
  String, if◌then◌else◌, arith,
}
use debugger_dap.Common.Int.{int_of, pos, eq_ℤ}
use debugger_dap.Text.{codes}
use debugger_dap.Json.{Node}
use debugger_dap.Protocol.{not_found}
use debugger_dap.Protocol.RoundTrip.{seq_of, seq_of-request_to, seq_of-with_arguments}
use debugger_dap.Protocol.Requests.{
  Source, is_positive, request_to, with_arguments, next_arguments_to, step_arguments_to,
  continue_arguments_to, scopes_arguments_to, stack_trace_arguments_to, variables_arguments_to,
  pause_arguments_to, source_arguments_to, evaluate_arguments_to, set_breakpoints_arguments_to,
  breakpoint_locations_arguments_to, read_memory_arguments_to,
}
use debugger_dap.Protocol.Control.{
  launch_arguments_to, attach_arguments_to, disconnect_arguments_to, terminate_arguments_to,
  set_function_breakpoints_arguments_to, set_exception_breakpoints_arguments_to,
  disassemble_arguments_to, goto_arguments_to, goto_targets_arguments_to,
}
use debugger_dap.Client.State.{
  Client, goto_targets_request, in_progress, is_supported, read_memory_request,
  breakpoint_locations_request,
}
use debugger_dap.Client.Send.{Library, Effect, send_request}
use debugger_dap.Client.Api
use debugger_dap.Client.Api.{
  Command, granularity_name, context_name, next_sequence, next_sequence_twice, thread_or_active,
  make_and_send, make_twice_and_send, make_twice_and_send_bare, initialize_action,
  breakpoint_locations_action, perform,
}
use debugger_dap.Client.Transmit.{transmitted, send_request-connected}
use debugger_dap.Client.Core.{Core, core}

-- The numbers up to the next `taken` are given out.
abbrev pub advance : ℕ → Core → Core
advance taken k = record k { sequence = k.sequence + taken }

-- A request was sent, under the int of the next value of the counter; the numbers that were taken are `taken`
-- and the connection is as before.
pub record HasSent (library : Library) (c : Client) (r : Client × List Effect) : Type 0 where
  pub tree : Node
  pub taken : ℕ
  pub is_next : seq_of tree ≡ int_of (c.sequence + 1)
  pub effects : r.1 ≡ transmitted library tree c.wants_log
  pub is_taken : 0 < taken
  pub connection : core r.0 ≡ advance taken (core c)

module _ (library : Library) where
  send-HasSent :
      (tree : Node) (taken : ℕ) (c c' : Client)
      → c.transport ≡ true
      → seq_of tree ≡ int_of (c.sequence + 1)
      → 0 < taken
      → core c' ≡ advance taken (core c)
      → HasSent library c (send_request library tree c')
  send-HasSent tree taken c c' e is_next is_taken same =
      let sends = send_request-connected library tree c' (ap (λ k. k.transport) same ∙ e) in
      record {
        tree = tree;
        taken = taken;
        is_next = is_next;
        effects = ap (λ r. r.1) sends ∙ ap (λ k. transmitted library tree k.wants_log) same;
        is_taken = is_taken;
        connection = ap (λ r. core r.0) sends ∙ same;
      }

  once-HasSent :
      (name : String) (arguments : Node) (c c' : Client)
      → c.transport ≡ true
      → core c' ≡ core c
      → HasSent library c (make_and_send library name arguments c')
  unfolding make_and_send next_sequence
  once-HasSent name arguments c c' e same =
      send-HasSent (with_arguments (int_of (c'.sequence + 1)) name arguments) 1 c (next_sequence c')
        e
        (seq_of-with_arguments (int_of (c'.sequence + 1)) name arguments
          ∙ ap (λ k. int_of (k.sequence + 1)) same)
        (omega arith) (ap (advance 1) same)

  twice-HasSent :
      (name : String) (arguments : Node) (c c' : Client)
      → c.transport ≡ true
      → core c' ≡ core c
      → HasSent library c (make_twice_and_send library name arguments c')
  unfolding make_twice_and_send next_sequence_twice
  twice-HasSent name arguments c c' e same =
      send-HasSent (with_arguments (int_of (c'.sequence + 1)) name arguments) 2 c
        (next_sequence_twice c') e
        (seq_of-with_arguments (int_of (c'.sequence + 1)) name arguments
          ∙ ap (λ k. int_of (k.sequence + 1)) same)
        (omega arith) (ap (advance 2) same)

  bare-HasSent :
      (name : String) (c : Client)
      → c.transport ≡ true
      → HasSent library c (make_twice_and_send_bare library name c)
  unfolding make_twice_and_send_bare next_sequence_twice
  bare-HasSent name c e =
      send-HasSent (request_to (int_of (c.sequence + 1)) name) 2 c (next_sequence_twice c) e
        (seq_of-request_to (int_of (c.sequence + 1)) name) (omega arith) refl

  -- What follows the sending does not touch the connection.
  after-HasSent :
      (c : Client) (r : Client × List Effect) (c' : Client)
      → HasSent library c r
      → core c' ≡ core r.0
      → HasSent library c (c', r.1)
  after-HasSent c r c' h same = record {
    tree = h.tree;
    taken = h.taken;
    is_next = h.is_next;
    effects = h.effects;
    is_taken = h.is_taken;
    connection = same ∙ h.connection;
  }

  if-HasSent :
      (b : Bool) (c : Client) (r : Client × List Effect)
      → HasSent library c r
      → (if b then r else (c, [])) ≡ (c, []) ⊎ HasSent library c (if b then r else (c, []))
  if-HasSent true c r h = inr h
  if-HasSent false c r h = inl refl

  -- With a transport, every command either does nothing at all, or sends exactly one request, under
  -- the int of 32 bits that the next value of the counter is narrowed to; the counter then stands
  -- at or above that value, and nothing else of the connection changes.
  pub perform-HasSent :
      (cmd : Command) (c : Client)
      → c.transport ≡ true
      → perform library cmd c ≡ (c, []) ⊎ HasSent library c (perform library cmd c)
  unfolding perform initialize_action breakpoint_locations_action
  perform-HasSent (Api.initialize arguments) c e =
      let r = make_and_send library "initialize" arguments c in
      inr (
        after-HasSent c r (record r.0 { handshake = in_progress })
          (once-HasSent "initialize" arguments c c e refl) refl)
  perform-HasSent (Api.set_breakpoints_file file lines) c e =
      let source : Source = record {
        name = library.full_name file;
        path = file;
        source_reference = pos 0;
      } in
      inr (
        twice-HasSent "setBreakpoints" (set_breakpoints_arguments_to source lines) c
          (record c { breakpoints_queue = c.breakpoints_queue ++ file ∷ [] }) e refl)
  perform-HasSent Api.configuration_done c e = inr (bare-HasSent "configurationDone" c e)
  perform-HasSent Api.get_threads c e = inr (bare-HasSent "threads" c e)
  perform-HasSent (Api.get_scopes frame_id) c e = inr (
      twice-HasSent "scopes" (scopes_arguments_to frame_id) c
        (record c { scopes_queue = c.scopes_queue ++ frame_id ∷ [] }) e refl)
  perform-HasSent (Api.get_frames id) c e = inr (
      once-HasSent "stackTrace" (stack_trace_arguments_to (thread_or_active c id)) c
        (record c { frames_queue = c.frames_queue ++ thread_or_active c id ∷ [] }) e refl)
  perform-HasSent (Api.next id single g) c e = inr (
      once-HasSent "next" (next_arguments_to (thread_or_active c id) (granularity_name g) single) c
        c e refl)
  perform-HasSent (Api.continue id all) c e = inr (
      once-HasSent "continue"
        (continue_arguments_to (thread_or_active c id)
          (not all || eq_ℤ (thread_or_active c id) not_found))
        c c e refl)
  perform-HasSent (Api.step_in id single g) c e = inr (
      once-HasSent "stepIn" (step_arguments_to (thread_or_active c id) single (granularity_name g))
        c c e refl)
  perform-HasSent (Api.step_out id single) c e = inr (
      once-HasSent "stepOut" (step_arguments_to (thread_or_active c id) single (codes "line")) c c e
        refl)
  perform-HasSent (Api.get_children_variables reference context count hex) c e = inr (
      once-HasSent "variables" (variables_arguments_to reference count hex) c
        (record c { variables_queue = c.variables_queue ++ (reference, context) ∷ [] }) e refl)
  perform-HasSent (Api.pause id) c e =
      inr (once-HasSent "pause" (pause_arguments_to (thread_or_active c id)) c c e refl)
  perform-HasSent (Api.breakpoint_locations path first last) c e =
      let source : Source = record { name = []; path = path; source_reference = pos 0 } in
      let arguments = breakpoint_locations_arguments_to source first not_found last not_found in
      let r = make_and_send library "breakpointLocations" arguments c in
      let c' : Client = record r.0 {
        request_files = r.0.request_files ++ (c.sequence + 1, path) ∷ [];
      } in
      if-HasSent (is_supported c breakpoint_locations_request) c (c', r.1)
        (after-HasSent c r c' (once-HasSent "breakpointLocations" arguments c c e refl) refl)
  perform-HasSent (Api.read_memory reference offset count) c e =
      let arguments = read_memory_arguments_to reference offset count in
      if-HasSent (is_supported c read_memory_request) c
        (make_and_send library "readMemory" arguments c)
        (once-HasSent "readMemory" arguments c c e refl)
  perform-HasSent (Api.load_source source callback) c e =
      let arguments = source_arguments_to source source.source_reference in
      let c' : Client = record c { sources_queue = c.sources_queue ++ callback ∷ [] } in
      if-HasSent (is_positive source.source_reference) c
        (make_and_send library "source" arguments c') (once-HasSent "source" arguments c c' e refl)
  perform-HasSent (Api.evaluate_expression expression id context callback hex) c e = inr (
      once-HasSent "evaluate" (evaluate_arguments_to expression id (context_name context) hex) c
        (record c { evaluate_queue = c.evaluate_queue ++ callback ∷ [] }) e refl)
  perform-HasSent (Api.set_exception_breakpoints filters) c e = inr (
      once-HasSent "setExceptionBreakpoints" (set_exception_breakpoints_arguments_to filters) c c e
        refl)
  perform-HasSent (Api.set_function_breakpoints breakpoints) c e = inr (
      once-HasSent "setFunctionBreakpoints" (set_function_breakpoints_arguments_to breakpoints) c c
        e refl)
  perform-HasSent (Api.get_disassemble address offset first count) c e = inr (
      once-HasSent "disassemble"
        (disassemble_arguments_to (library.hex_address address) offset first count true) c c e refl)
  perform-HasSent (Api.get_variable_info reference count hex) c e =
      inr (once-HasSent "variables" (variables_arguments_to reference count hex) c c e refl)
  perform-HasSent (Api.goto id target) c e =
      inr (once-HasSent "goto" (goto_arguments_to id target) c c e refl)
  perform-HasSent (Api.attach pid) c e =
      inr (once-HasSent "attach" (attach_arguments_to pid) c c e refl)
  perform-HasSent (Api.disconnect terminates restart) c e =
      inr (once-HasSent "disconnect" (disconnect_arguments_to restart terminates) c c e refl)
  perform-HasSent (Api.terminate restart) c e =
      inr (once-HasSent "terminate" (terminate_arguments_to restart) c c e refl)
  perform-HasSent (Api.launch program args cwd env) c e = inr (
      twice-HasSent "launch" (launch_arguments_to program args cwd env) c
        (record c { active_thread = not_found }) e refl)
  perform-HasSent (Api.goto_target file line column) c e =
      let path = library.full_path file in
      let source : Source = record { name = path; path = path; source_reference = pos 0 } in
      let arguments = goto_targets_arguments_to source line column in
      if-HasSent (is_supported c goto_targets_request) c
        (make_and_send library "gotoTargets" arguments c)
        (once-HasSent "gotoTargets" arguments c c e refl)

  -- So a transport that is there stays there.
  pub perform-transport :
      (cmd : Command) (c : Client) → c.transport ≡ true → (perform library cmd c).0.transport ≡ true
  perform-transport cmd c e = kept (perform-HasSent cmd c e)
    where
      kept :
          perform library cmd c ≡ (c, []) ⊎ HasSent library c (perform library cmd c)
          → (perform library cmd c).0.transport ≡ true
      kept (inl same) = ap (λ r. r.0.transport) same ∙ e
      kept (inr h) = ap (λ k. k.transport) h.connection ∙ e
