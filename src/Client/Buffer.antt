-- ===== src/Client/Buffer.antt =====
-- `OnMessage` and the bytes that wait in the buffer (src/DebugAdapterProtocol/Client.cpp).
use debugger_dap.Common.{
  ℕ, ◌≡◌, refl, ap, Bool, true, false, ◌&&◌, List, [], ◌∷◌, ◌++◌, Option, none, some, if◌then◌else◌,
}
use debugger_dap.Common.Int.{ℤ}
use debugger_dap.Text.{Text, codes, text_eq, find}
use debugger_dap.Json.{Json, child}
use debugger_dap.Protocol.{Kind, request, response, event, Message, from_json}
use debugger_dap.Client.State.{
  Client, HandshakeState, not_performed, in_progress, completed, Context,
}
use debugger_dap.Client.Send
use debugger_dap.Client.Send.{Library, Effect, plain, json_dump, logged}
use debugger_dap.Client.Names.{
  EventName, event_name, ResponseName, response_name, find_file, feature_table, enable_features,
}
use debugger_dap.Client.Dispatch.{
  is_found, json_to_string, send_dap_event, evaluate_with, source_with, stack_trace_with,
  scopes_with, variables_with, breakpoints_with, locations_with, unnamed_response, on_event,
  on_response, on_known, on_completed, is_response, on_handshake, by_state, on_message,
}

-- What is left in the buffer is put into the client.
abbrev pub with_buffer : Text → Client × List Effect → Client × List Effect
with_buffer b r = (record r.0 { buffer = b }, r.1)

if-buffer :
    (t : Bool) (b : Text) (c : Client) (r r' : Client × List Effect)
    → r' ≡ with_buffer b r
    → (if t then r' else (record c { buffer = b }, [])) ≡ with_buffer b (if t then r else (c, []))
if-buffer true b c r r' h = h
if-buffer false b c r r' h = refl

module _ (library : Library) (b : Text) where
  stack_trace_with-buffer :
      (entries : List ℤ) (json : Json) (c : Client)
      → stack_trace_with library entries json (record c { buffer = b })
        ≡ with_buffer b (stack_trace_with library entries json c)
  unfolding stack_trace_with send_dap_event
  stack_trace_with-buffer [] json c = refl
  stack_trace_with-buffer (id ∷ rest) json c = refl

  scopes_with-buffer :
      (entries : List ℤ) (json : Json) (c : Client)
      → scopes_with library entries json (record c { buffer = b })
        ≡ with_buffer b (scopes_with library entries json c)
  unfolding scopes_with send_dap_event
  scopes_with-buffer [] json c = refl
  scopes_with-buffer (id ∷ rest) json c = refl

  variables_with-buffer :
      (entries : List (ℤ × Context)) (json : Json) (c : Client)
      → variables_with library entries json (record c { buffer = b })
        ≡ with_buffer b (variables_with library entries json c)
  unfolding variables_with send_dap_event
  variables_with-buffer [] json c = refl
  variables_with-buffer ((id, context) ∷ rest) json c = refl

  breakpoints_with-buffer :
      (entries : List Text) (json : Json) (c : Client)
      → breakpoints_with library entries json (record c { buffer = b })
        ≡ with_buffer b (breakpoints_with library entries json c)
  unfolding breakpoints_with send_dap_event
  breakpoints_with-buffer [] json c = refl
  breakpoints_with-buffer (file ∷ rest) json c = refl

  evaluate_with-buffer :
      (entries : List ℕ) (json : Json) (c : Client)
      → evaluate_with library entries json (record c { buffer = b })
        ≡ with_buffer b (evaluate_with library entries json c)
  unfolding evaluate_with
  evaluate_with-buffer [] json c = refl
  evaluate_with-buffer (callback ∷ rest) json c = refl

  source_with-buffer :
      (entries : List ℕ) (json : Json) (c : Client)
      → source_with library entries json (record c { buffer = b })
        ≡ with_buffer b (source_with library entries json c)
  unfolding source_with
  source_with-buffer [] json c = refl
  source_with-buffer (callback ∷ rest) json c = refl

  locations_with-buffer :
      (found : Option Text) (id : ℤ) (json : Json) (c : Client)
      → locations_with library found id json (record c { buffer = b })
        ≡ with_buffer b (locations_with library found id json c)
  unfolding locations_with send_dap_event
  locations_with-buffer none id json c = refl
  locations_with-buffer (some path) id json c = refl

  on_event-buffer :
      (name : EventName) (json : Json) (c : Client)
      → on_event library name json (record c { buffer = b })
        ≡ with_buffer b (on_event library name json c)
  unfolding on_event send_dap_event
  on_event-buffer EventName.stopped json c = refl
  on_event-buffer EventName.process json c = refl
  on_event-buffer _ json c = refl

  on_response-buffer :
      (name : ResponseName) (id : ℤ) (json : Json) (c : Client)
      → on_response library name id json (record c { buffer = b })
        ≡ with_buffer b (on_response library name id json c)
  unfolding on_response send_dap_event unnamed_response
  on_response-buffer ResponseName.stack_trace id json c =
      stack_trace_with-buffer c.frames_queue json c
  on_response-buffer ResponseName.scopes id json c = scopes_with-buffer c.scopes_queue json c
  on_response-buffer ResponseName.variables_list id json c =
      variables_with-buffer c.variables_queue json c
  on_response-buffer ResponseName.set_breakpoints id json c =
      breakpoints_with-buffer c.breakpoints_queue json c
  on_response-buffer ResponseName.breakpoint_locations id json c =
      locations_with-buffer (find_file c.request_files id) id json c
  on_response-buffer ResponseName.evaluate id json c = evaluate_with-buffer c.evaluate_queue json c
  on_response-buffer ResponseName.source id json c = source_with-buffer c.sources_queue json c
  on_response-buffer ResponseName.unnamed id json c =
      let dump = json_to_string library json in
      if-buffer
        (is_found (find (codes "\"success\":false") dump)
          && is_found (find (codes "\"message\":\"Could not attach:") dump))
        b c (send_dap_event library Send.attach_response (json_dump dump) json c)
        (send_dap_event library Send.attach_response (json_dump dump) json
          (record c { buffer = b }))
        refl
  on_response-buffer _ id json c = refl

  on_known-buffer :
      (kind : Kind) (message : Message) (json : Json) (c : Client)
      → on_known library kind message json (record c { buffer = b })
        ≡ with_buffer b (on_known library kind message json c)
  unfolding on_known send_dap_event
  on_known-buffer event message json c = on_event-buffer (event_name message.name) json c
  on_known-buffer response message json c =
      on_response-buffer (response_name message.name) message.request_seq json c
  on_known-buffer request message json c =
      if-buffer (text_eq message.name (codes "runInTerminal")) b c
        (send_dap_event library Send.run_in_terminal_request plain json c)
        (send_dap_event library Send.run_in_terminal_request plain json (record c { buffer = b }))
        refl

  on_completed-buffer :
      (parsed : Option Message) (json : Json) (c : Client)
      → on_completed library parsed json (record c { buffer = b })
        ≡ with_buffer b (on_completed library parsed json c)
  unfolding on_completed
  on_completed-buffer none json c = refl
  on_completed-buffer (some message) json c = on_known-buffer message.kind message json c

  established : Json → Client → Client
  established json c = record c {
    handshake = completed;
    features = enable_features feature_table (child json (codes "body")) c.features;
  }

  on_handshake-buffer :
      (parsed : Option Message) (json : Json) (c : Client)
      → on_handshake library parsed json (record c { buffer = b })
        ≡ with_buffer b (on_handshake library parsed json c)
  unfolding on_handshake send_dap_event established
  on_handshake-buffer none json c = refl
  on_handshake-buffer (some message) json c =
      if-buffer (is_response message.kind && text_eq message.name (codes "initialize")) b c
        (send_dap_event library Send.initialize_response plain json (established json c))
        (send_dap_event library Send.initialize_response plain json
          (established json (record c { buffer = b })))
        refl

  by_state-buffer :
      (state : HandshakeState) (json : Json) (c : Client)
      → by_state library state json (record c { buffer = b })
        ≡ with_buffer b (by_state library state json c)
  unfolding by_state
  by_state-buffer completed json c = on_completed-buffer (from_json json) json c
  by_state-buffer not_performed json c = on_handshake-buffer (from_json json) json c
  by_state-buffer in_progress json c = on_handshake-buffer (from_json json) json c

  pub on_message-buffer :
      (json : Json) (c : Client)
      → on_message library json (record c { buffer = b })
        ≡ with_buffer b (on_message library json c)
  unfolding on_message
  on_message-buffer json c =
      ap
        (λ r. (
          r.0,
          (if c.wants_log then logged (codes "<-- " ++ json_to_string library json) ∷ [] else [])
              ++ r.1,
        ))
        (by_state-buffer c.handshake json c)
