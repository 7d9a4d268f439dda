-- ===== src/Client/Queues.antt =====
-- The queues of `dap::Client`, and what a session asks for and hands back
-- (src/DebugAdapterProtocol/Client.cpp).
mod Received
mod Messages
mod Pushed
mod Asked
mod Commands
pub mod Order
use debugger_dap.Common.{
  ℕ, ◌+◌, ◌≡◌, ◌≢◌, refl, sym, ap, ◌∙◌, subst, ◌⊎◌, inl, inr, Bool, true, false, List, [], ◌∷◌,
  ◌++◌, append-nil, append_assoc, Option, none, some, Bool-cases, Option-cases, if◌then◌else◌,
  arith,
}
use debugger_dap.Common.Int.{ℤ}
use debugger_dap.Text.{Text, codes}
use debugger_dap.Json.{Json}
use debugger_dap.Protocol.{Kind, request, response, event, Message, from_json}
use debugger_dap.Protocol.Requests.{is_positive}
use debugger_dap.Client.State.{
  Client, Context, HandshakeState, not_performed, in_progress, completed, is_supported,
  read_memory_request, breakpoint_locations_request,
}
use debugger_dap.Client.Send
use debugger_dap.Client.Send.{
  Library, EventType, Detail, plain, ref_id, ref_context, origin_source, Effect, fired, evaluated,
  loaded, logged, sent, Action, send_request,
}
use debugger_dap.Client.Api
use debugger_dap.Client.Api.{Command, thread_or_active, perform}
use debugger_dap.Client.Names.{EventName, event_name, ResponseName, response_name, find_file}
use debugger_dap.Client.Dispatch.{
  send_dap_event, on_event, on_response, on_known, on_completed, on_handshake, by_state, on_message,
}

-- The six queues.
pub data Queue : Type 0 where
  frames scopes variables sources evaluates breakpoints : Queue

-- What a queue holds: thread and frame numbers, variable references, callbacks, file names.
abbrev pub Entry : Queue → Type 0
Entry frames = ℤ
Entry scopes = ℤ
Entry variables = ℤ × Context
Entry sources = ℕ
Entry evaluates = ℕ
Entry breakpoints = Text

abbrev pub queue : (q : Queue) → Client → List (Entry q)
queue frames c = c.frames_queue
queue scopes c = c.scopes_queue
queue variables c = c.variables_queue
queue sources c = c.sources_queue
queue evaluates c = c.evaluate_queue
queue breakpoints c = c.breakpoints_queue

-- The entry that an effect hands back to the plugin.
abbrev pub handed : (q : Queue) → Effect → List (Entry q)
handed frames (fired Send.stacktrace_response json (ref_id id) s) = id ∷ []
handed scopes (fired Send.scopes_response json (ref_id id) s) = id ∷ []
handed variables (fired Send.variables_response json (ref_context id context) s) =
    (id, context) ∷ []
handed sources (loaded callback success content mime) = callback ∷ []
handed evaluates (evaluated callback success result type reference) = callback ∷ []
handed breakpoints (fired Send.set_source_breakpoint_response json (origin_source file) s) =
    file ∷ []
handed _ _ = []

abbrev pub handed_all : (q : Queue) → List Effect → List (Entry q)
handed_all q [] = []
handed_all q (e ∷ es) = handed q e ++ handed_all q es

-- What a request notes for its response, and in which queue.
pub data Note : Type 0 where
  nothing_noted : Note
  frame_note : ℤ → Note
  scope_note : ℤ → Note
  variable_note : ℤ → Context → Note
  source_note : ℕ → Note
  evaluate_note : ℕ → Note
  file_note : Text → Note

abbrev pub entry : (q : Queue) → Note → List (Entry q)
entry frames (frame_note id) = id ∷ []
entry scopes (scope_note id) = id ∷ []
entry variables (variable_note reference context) = (reference, context) ∷ []
entry sources (source_note callback) = callback ∷ []
entry evaluates (evaluate_note callback) = callback ∷ []
entry breakpoints (file_note file) = file ∷ []
entry _ _ = []

abbrev pub noted : Command → Client → Note
noted (Api.get_frames thread_id) c = frame_note (thread_or_active c thread_id)
noted (Api.get_scopes frame_id) c = scope_note frame_id
noted (Api.get_children_variables reference context count hex) c = variable_note reference context
noted (Api.load_source source callback) c =
    if is_positive source.source_reference then source_note callback else nothing_noted
noted (Api.evaluate_expression expression frame_id context callback hex) c = evaluate_note callback
noted (Api.set_breakpoints_file file lines) c = file_note file
noted _ c = nothing_noted

-- The entry that a request leaves for its response.
abbrev pub asked : (q : Queue) → Command → Client → List (Entry q)
asked q cmd c = entry q (noted cmd c)

-- What is handed back, and then what still waits, is what waited before, and then what was asked
-- for.
abbrev pub Conserves : (q : Queue) → List (Entry q) → Client → Client × List Effect → Type 0
Conserves q new c (c', effects) = handed_all q effects ++ queue q c' ≡ queue q c ++ new

pub unchanged :
    (q : Queue) (c : Client) (r : Client × List Effect)
    → handed_all q r.1 ≡ []
    → queue q r.0 ≡ queue q c
    → Conserves q [] c r
unchanged q c r h k = rw (h, k) (sym (append-nil (queue q c)))

-- A step of a session: the plugin calls a member function, or a message arrives.
pub data Step : Type 0 where
  command : Command → Step
  incoming : Json → Step

-- What a step asks for.
abbrev pub put : (q : Queue) → Step → Client → List (Entry q)
put q (command cmd) c = asked q cmd c
put q (incoming json) c = []

module _ (library : Library) where
  unfoldable pub step : Step → Action
  step (command cmd) c = perform library cmd c
  step (incoming json) c = on_message library json c

  -- A session: its last state and all that it did, in order.
  unfoldable pub run : List Step → Action
  run [] c = (c, [])
  run (s ∷ steps) c =
      let (c', effects) = step s c in let (c'', later) = run steps c' in (c'', effects ++ later)

  -- All that the steps of a session ask for, in order.
  unfoldable pub put_all : (q : Queue) → List Step → Client → List (Entry q)
  unfolding step
  put_all q [] c = []
  put_all q (s ∷ steps) c = put q s c ++ put_all q steps (step s c).0
