-- ===== src/Client/Queues/Received.antt =====
-- The queues under the events and the responses that fire an event
-- (src/DebugAdapterProtocol/Client.cpp).
use debugger_dap.Common.{
  ◌≡◌, refl, sym, ap, ◌∙◌, Bool, true, false, List, [], ◌∷◌, ◌++◌, append-nil,
}
use debugger_dap.Common.Int.{ℤ}
use debugger_dap.Text.{Text}
use debugger_dap.Json.{Json}
use debugger_dap.Client.State.{Client, Context}
use debugger_dap.Client.Send
use debugger_dap.Client.Send.{
  Library, EventType, Detail, plain, ref_id, ref_context, origin_source, Effect, fired, evaluated,
  loaded, logged, sent, Action, send_request,
}
use debugger_dap.Client.Names.{EventName}
use debugger_dap.Client.Dispatch.{
  send_dap_event, stack_trace_with, scopes_with, variables_with, breakpoints_with, on_event,
}
use debugger_dap.Client.Queues.{
  Queue, frames, scopes, variables, sources, evaluates, breakpoints, Entry, queue, handed,
  Conserves,
}

module _ (library : Library) where
  send_dap_event_effects :
      (type : EventType) (detail : Detail) (json : Json) (c : Client)
      → (s : Text) × ((send_dap_event library type detail json c).1 ≡ fired type json detail s ∷ [])
  unfolding send_dap_event
  send_dap_event_effects Send.stopped_event detail json c = (_, refl)
  send_dap_event_effects _ detail json c = (_, refl)

  send_dap_event_client :
      (type : EventType) (detail : Detail) (json : Json) (c : Client)
      → (t : ℤ) × ((send_dap_event library type detail json c).0 ≡ record c { active_thread = t })
  unfolding send_dap_event
  send_dap_event_client Send.stopped_event detail json c = (_, refl)
  send_dap_event_client _ detail json c = (c.active_thread, refl)

  queue-active_thread :
      (q : Queue) (c : Client) (t : ℤ) → queue q (record c { active_thread = t }) ≡ queue q c
  queue-active_thread frames c t = refl
  queue-active_thread _ c t = refl

  -- An event that hands back `new`, from a client whose queue begins with it.
  pub send_dap_event-Conserves :
      (q : Queue) (type : EventType) (detail : Detail) (json : Json) (c c' : Client)
      (new : List (Entry q))
      → ((s : Text) → handed q (fired type json detail s) ≡ new)
      → new ++ queue q c' ≡ queue q c
      → Conserves q [] c (send_dap_event library type detail json c')
  send_dap_event-Conserves q type detail json c c' new hands front =
      let (t, e) = send_dap_event_client type detail json c' in
      let (s, f) = send_dap_event_effects type detail json c' in
      rw f (
        rw (hands s, append-nil new, ap (queue q) e ∙ queue-active_thread q c' t, front)
          (sym (append-nil (queue q c))))

  plain_handed :
      (q : Queue) (type : EventType) (json : Json) (s : Text)
      → handed q (fired type json plain s) ≡ []
  plain_handed frames Send.stacktrace_response json s = refl
  plain_handed frames _ json s = refl
  plain_handed scopes Send.stacktrace_response json s = refl
  plain_handed scopes _ json s = refl
  plain_handed variables Send.stacktrace_response json s = refl
  plain_handed variables _ json s = refl
  plain_handed sources Send.stacktrace_response json s = refl
  plain_handed sources _ json s = refl
  plain_handed evaluates Send.stacktrace_response json s = refl
  plain_handed evaluates _ json s = refl
  plain_handed breakpoints Send.stacktrace_response json s = refl
  plain_handed breakpoints _ json s = refl

  pub plain-Conserves :
      (q : Queue) (type : EventType) (json : Json) (c c' : Client)
      → queue q c' ≡ queue q c
      → Conserves q [] c (send_dap_event library type plain json c')
  plain-Conserves q type json c c' =
      send_dap_event-Conserves q type plain json c c' [] (λ s. plain_handed q type json s)

  pub queue-can_interact :
      (q : Queue) (c : Client) (b : Bool) → queue q (record c { can_interact = b }) ≡ queue q c
  queue-can_interact frames c b = refl
  queue-can_interact _ c b = refl

  pub nothing-Conserves : (q : Queue) (c : Client) → Conserves q [] c (c, [])
  nothing-Conserves q c = sym (append-nil (queue q c))

  pub on_event-Conserves :
      (q : Queue) (name : EventName) (json : Json) (c : Client)
      → Conserves q [] c (on_event library name json c)
  unfolding on_event
  on_event-Conserves q EventName.stopped json c =
      plain-Conserves q Send.stopped_event json c (record c { can_interact = true })
        (queue-can_interact q c true)
  on_event-Conserves q EventName.continued json c =
      plain-Conserves q Send.continued_event json c (record c { can_interact = false })
        (queue-can_interact q c false)
  on_event-Conserves q EventName.other_event json c = nothing-Conserves q c
  on_event-Conserves q EventName.process json c = plain-Conserves q Send.process_event json c c refl
  on_event-Conserves q EventName.exited json c = plain-Conserves q Send.exited_event json c c refl
  on_event-Conserves q EventName.terminated json c =
      plain-Conserves q Send.terminated_event json c c refl
  on_event-Conserves q EventName.initialized json c =
      plain-Conserves q Send.initialized_event json c c refl
  on_event-Conserves q EventName.output json c = plain-Conserves q Send.output_event json c c refl
  on_event-Conserves q EventName.breakpoint json c =
      plain-Conserves q Send.breakpoint_event json c c refl
  on_event-Conserves q EventName.module_loaded json c =
      plain-Conserves q Send.module_event json c c refl

  pub stack_trace-Conserves :
      (q : Queue) (entries : List ℤ) (json : Json) (c : Client)
      → c.frames_queue ≡ entries
      → Conserves q [] c (stack_trace_with library entries json c)
  unfolding stack_trace_with
  stack_trace-Conserves q [] json c e = plain-Conserves q Send.stacktrace_response json c c refl
  stack_trace-Conserves frames (id ∷ rest) json c e =
      send_dap_event-Conserves frames Send.stacktrace_response (ref_id id) json c
        (record c { frames_queue = rest }) (id ∷ []) (λ s. refl) (sym e)
  stack_trace-Conserves scopes (id ∷ rest) json c e =
      send_dap_event-Conserves scopes Send.stacktrace_response (ref_id id) json c
        (record c { frames_queue = rest }) [] (λ s. refl) refl
  stack_trace-Conserves variables (id ∷ rest) json c e =
      send_dap_event-Conserves variables Send.stacktrace_response (ref_id id) json c
        (record c { frames_queue = rest }) [] (λ s. refl) refl
  stack_trace-Conserves sources (id ∷ rest) json c e =
      send_dap_event-Conserves sources Send.stacktrace_response (ref_id id) json c
        (record c { frames_queue = rest }) [] (λ s. refl) refl
  stack_trace-Conserves evaluates (id ∷ rest) json c e =
      send_dap_event-Conserves evaluates Send.stacktrace_response (ref_id id) json c
        (record c { frames_queue = rest }) [] (λ s. refl) refl
  stack_trace-Conserves breakpoints (id ∷ rest) json c e =
      send_dap_event-Conserves breakpoints Send.stacktrace_response (ref_id id) json c
        (record c { frames_queue = rest }) [] (λ s. refl) refl

  pub scopes-Conserves :
      (q : Queue) (entries : List ℤ) (json : Json) (c : Client)
      → c.scopes_queue ≡ entries
      → Conserves q [] c (scopes_with library entries json c)
  unfolding scopes_with
  scopes-Conserves q [] json c e = plain-Conserves q Send.scopes_response json c c refl
  scopes-Conserves scopes (id ∷ rest) json c e =
      send_dap_event-Conserves scopes Send.scopes_response (ref_id id) json c
        (record c { scopes_queue = rest }) (id ∷ []) (λ s. refl) (sym e)
  scopes-Conserves frames (id ∷ rest) json c e =
      send_dap_event-Conserves frames Send.scopes_response (ref_id id) json c
        (record c { scopes_queue = rest }) [] (λ s. refl) refl
  scopes-Conserves variables (id ∷ rest) json c e =
      send_dap_event-Conserves variables Send.scopes_response (ref_id id) json c
        (record c { scopes_queue = rest }) [] (λ s. refl) refl
  scopes-Conserves sources (id ∷ rest) json c e =
      send_dap_event-Conserves sources Send.scopes_response (ref_id id) json c
        (record c { scopes_queue = rest }) [] (λ s. refl) refl
  scopes-Conserves evaluates (id ∷ rest) json c e =
      send_dap_event-Conserves evaluates Send.scopes_response (ref_id id) json c
        (record c { scopes_queue = rest }) [] (λ s. refl) refl
  scopes-Conserves breakpoints (id ∷ rest) json c e =
      send_dap_event-Conserves breakpoints Send.scopes_response (ref_id id) json c
        (record c { scopes_queue = rest }) [] (λ s. refl) refl

  pub variables-Conserves :
      (q : Queue) (entries : List (ℤ × Context)) (json : Json) (c : Client)
      → c.variables_queue ≡ entries
      → Conserves q [] c (variables_with library entries json c)
  unfolding variables_with
  variables-Conserves q [] json c e = plain-Conserves q Send.variables_response json c c refl
  variables-Conserves variables ((id, context) ∷ rest) json c e =
      send_dap_event-Conserves variables Send.variables_response (ref_context id context) json c
        (record c { variables_queue = rest }) ((id, context) ∷ []) (λ s. refl) (sym e)
  variables-Conserves frames ((id, context) ∷ rest) json c e =
      send_dap_event-Conserves frames Send.variables_response (ref_context id context) json c
        (record c { variables_queue = rest }) [] (λ s. refl) refl
  variables-Conserves scopes ((id, context) ∷ rest) json c e =
      send_dap_event-Conserves scopes Send.variables_response (ref_context id context) json c
        (record c { variables_queue = rest }) [] (λ s. refl) refl
  variables-Conserves sources ((id, context) ∷ rest) json c e =
      send_dap_event-Conserves sources Send.variables_response (ref_context id context) json c
        (record c { variables_queue = rest }) [] (λ s. refl) refl
  variables-Conserves evaluates ((id, context) ∷ rest) json c e =
      send_dap_event-Conserves evaluates Send.variables_response (ref_context id context) json c
        (record c { variables_queue = rest }) [] (λ s. refl) refl
  variables-Conserves breakpoints ((id, context) ∷ rest) json c e =
      send_dap_event-Conserves breakpoints Send.variables_response (ref_context id context) json c
        (record c { variables_queue = rest }) [] (λ s. refl) refl

  pub breakpoints-Conserves :
      (q : Queue) (entries : List Text) (json : Json) (c : Client)
      → c.breakpoints_queue ≡ entries
      → Conserves q [] c (breakpoints_with library entries json c)
  unfolding breakpoints_with
  breakpoints-Conserves q [] json c e =
      plain-Conserves q Send.set_source_breakpoint_response json c c refl
  breakpoints-Conserves breakpoints (file ∷ rest) json c e =
      send_dap_event-Conserves breakpoints Send.set_source_breakpoint_response (origin_source file)
        json c (record c { breakpoints_queue = rest }) (file ∷ []) (λ s. refl) (sym e)
  breakpoints-Conserves frames (file ∷ rest) json c e =
      send_dap_event-Conserves frames Send.set_source_breakpoint_response (origin_source file) json
        c (record c { breakpoints_queue = rest }) [] (λ s. refl) refl
  breakpoints-Conserves scopes (file ∷ rest) json c e =
      send_dap_event-Conserves scopes Send.set_source_breakpoint_response (origin_source file) json
        c (record c { breakpoints_queue = rest }) [] (λ s. refl) refl
  breakpoints-Conserves variables (file ∷ rest) json c e =
      send_dap_event-Conserves variables Send.set_source_breakpoint_response (origin_source file)
        json c (record c { breakpoints_queue = rest }) [] (λ s. refl) refl
  breakpoints-Conserves sources (file ∷ rest) json c e =
      send_dap_event-Conserves sources Send.set_source_breakpoint_response (origin_source file) json
        c (record c { breakpoints_queue = rest }) [] (λ s. refl) refl
  breakpoints-Conserves evaluates (file ∷ rest) json c e =
      send_dap_event-Conserves evaluates Send.set_source_breakpoint_response (origin_source file)
        json c (record c { breakpoints_queue = rest }) [] (λ s. refl) refl
