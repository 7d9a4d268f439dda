-- ===== src/Client/Queues/Asked.antt =====
-- The queues under `SendRequest` and the ways to number a request
-- (src/DebugAdapterProtocol/Client.cpp).
use debugger_dap.Common.{
  ℕ, ◌+◌, ◌≡◌, refl, ap, ◌∙◌, Bool, true, false, List, [], ◌∷◌, ◌++◌, String, if◌then◌else◌,
}
use debugger_dap.Common.Int.{int_of, ℤ, pos}
use debugger_dap.Text.{Text, codes}
use debugger_dap.Json.{Node}
use debugger_dap.Rpc.{frame}
use debugger_dap.Protocol.Requests.{
  Source, request_to, with_arguments, breakpoint_locations_arguments_to,
}
use debugger_dap.Protocol.{not_found}
use debugger_dap.Client.State.{Client, in_progress, is_supported, breakpoint_locations_request}
use debugger_dap.Client.Send
use debugger_dap.Client.Send.{Library, Effect, Action, send_request}
use debugger_dap.Client.Api.{
  next_sequence, next_sequence_twice, make_and_send, make_twice_and_send, make_twice_and_send_bare,
  initialize_action, breakpoint_locations_action,
}
use debugger_dap.Client.Transmit.{send_request-connected}
use debugger_dap.Client.Queues.{
  Queue, frames, scopes, variables, sources, evaluates, breakpoints, Entry, queue, handed_all,
  nothing_noted, entry, Conserves,
}
use debugger_dap.Client.Queues.Pushed.{pushed-nothing}

module _ (library : Library) where
  handed-sent :
      (q : Queue) (b : Bool) (bytes text : Text)
      → handed_all q (Send.sent bytes ∷ (if b then Send.logged text ∷ [] else [])) ≡ []
  handed-sent frames false bytes text = refl
  handed-sent frames true bytes text = refl
  handed-sent scopes false bytes text = refl
  handed-sent scopes true bytes text = refl
  handed-sent variables false bytes text = refl
  handed-sent variables true bytes text = refl
  handed-sent sources false bytes text = refl
  handed-sent sources true bytes text = refl
  handed-sent evaluates false bytes text = refl
  handed-sent evaluates true bytes text = refl
  handed-sent breakpoints false bytes text = refl
  handed-sent breakpoints true bytes text = refl

  sent-Conserves :
      (q : Queue) (request : Node) (c c' : Client) (new : List (Entry q))
      → c'.transport ≡ true
      → queue q c' ≡ queue q c ++ new
      → Conserves q new c (send_request library request c')
  sent-Conserves q request c c' new e pushed =
      ap (λ r. handed_all q r.1 ++ queue q r.0) (send_request-connected library request c' e)
      ∙ ap (λ l. l ++ queue q c')
          (handed-sent q c'.wants_log (frame (library.print request))
            (codes "--> " ++ library.print request))
      ∙ pushed

  queue-next_sequence : (q : Queue) (c : Client) → queue q (next_sequence c) ≡ queue q c
  unfolding next_sequence
  queue-next_sequence frames c = refl
  queue-next_sequence _ c = refl

  queue-next_sequence_twice : (q : Queue) (c : Client) → queue q (next_sequence_twice c) ≡ queue q c
  unfolding next_sequence_twice
  queue-next_sequence_twice frames c = refl
  queue-next_sequence_twice _ c = refl

  pub once-Conserves :
      (q : Queue) (name : String) (arguments : Node) (c c' : Client) (new : List (Entry q))
      → c'.transport ≡ true
      → queue q c' ≡ queue q c ++ new
      → Conserves q new c (make_and_send library name arguments c')
  unfolding make_and_send next_sequence
  once-Conserves q name arguments c c' new e pushed =
      sent-Conserves q (with_arguments (int_of (c'.sequence + 1)) name arguments) c
        (next_sequence c') new e (queue-next_sequence q c' ∙ pushed)

  pub twice-Conserves :
      (q : Queue) (name : String) (arguments : Node) (c c' : Client) (new : List (Entry q))
      → c'.transport ≡ true
      → queue q c' ≡ queue q c ++ new
      → Conserves q new c (make_twice_and_send library name arguments c')
  unfolding make_twice_and_send next_sequence_twice
  twice-Conserves q name arguments c c' new e pushed =
      sent-Conserves q (with_arguments (int_of (c'.sequence + 1)) name arguments) c
        (next_sequence_twice c') new e (queue-next_sequence_twice q c' ∙ pushed)

  pub bare-Conserves :
      (q : Queue) (name : String) (c : Client)
      → c.transport ≡ true
      → Conserves q (entry q nothing_noted) c (make_twice_and_send_bare library name c)
  unfolding make_twice_and_send_bare next_sequence_twice
  bare-Conserves q name c e =
      sent-Conserves q (request_to (int_of (c.sequence + 1)) name) c (next_sequence_twice c)
        (entry q nothing_noted) e (queue-next_sequence_twice q c ∙ pushed-nothing q c)

  pub if-Conserved :
      (q : Queue) (b : Bool) (c : Client) (r : Client × List Effect)
      → Conserves q (entry q nothing_noted) c r
      → Conserves q (entry q nothing_noted) c (if b then r else (c, []))
  if-Conserved q true c r h = h
  if-Conserved q false c r h = pushed-nothing q c

  pub plain_once :
      (q : Queue) (name : String) (arguments : Node) (c : Client)
      → c.transport ≡ true
      → Conserves q (entry q nothing_noted) c (make_and_send library name arguments c)
  plain_once q name arguments c e =
      once-Conserves q name arguments c c (entry q nothing_noted) e (pushed-nothing q c)

  pub initialize-Conserves :
      (q : Queue) (arguments : Node) (c : Client)
      → c.transport ≡ true
      → Conserves q (entry q nothing_noted) c (initialize_action library arguments c)
  unfolding initialize_action
  initialize-Conserves q arguments c e =
      ap (λ l. handed_all q (make_and_send library "initialize" arguments c).1 ++ l)
        (same q (make_and_send library "initialize" arguments c).0)
      ∙ plain_once q "initialize" arguments c e
    where
      same : (q : Queue) (c : Client) → queue q (record c { handshake = in_progress }) ≡ queue q c
      same frames c = refl
      same _ c = refl

  nothing_asked : (q : Queue) (c : Client) → Conserves q (entry q nothing_noted) c (c, [])
  nothing_asked q c = pushed-nothing q c

  pub locations_requested :
      (q : Queue) (filepath : Text) (start_line end_line : ℤ) (c : Client)
      → c.transport ≡ true
      → Conserves q
          (entry q nothing_noted)
          c
          (breakpoint_locations_action library filepath start_line end_line c)
  unfolding breakpoint_locations_action
  locations_requested q filepath start_line end_line c e =
      let source : Source = record { name = []; path = filepath; source_reference = pos 0 } in
      let arguments =
        breakpoint_locations_arguments_to source start_line not_found end_line not_found in
      let r = make_and_send library "breakpointLocations" arguments c in
      if-Conserved q (is_supported c breakpoint_locations_request) c
        (record r.0 { request_files = r.0.request_files ++ (c.sequence + 1, filepath) ∷ [] }, r.1)
        (ap (λ l. handed_all q r.1 ++ l)
            (same q r.0 (r.0.request_files ++ (c.sequence + 1, filepath) ∷ []))
          ∙ plain_once q "breakpointLocations" arguments c e)
    where
      same :
          (q : Queue) (c : Client) (files : List (ℕ × Text))
          → queue q (record c { request_files = files }) ≡ queue q c
      same frames c files = refl
      same _ c files = refl
