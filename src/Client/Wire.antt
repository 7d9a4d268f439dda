-- ===== src/Client/Wire.antt =====
-- The bytes that the client gives to the transport (src/DebugAdapterProtocol/Client.cpp).
pub mod Numbers
use debugger_dap.Common.{
  ℕ, ◌≡◌, refl, ap, Bool, true, false, ◌&&◌, List, [], ◌∙◌, ◌∷◌, ◌++◌, Option, none, some,
  if◌then◌else◌,
}
use debugger_dap.Common.Int.{ℤ}
use debugger_dap.Text.{Text, codes, text_eq, find}
use debugger_dap.Json.{Json, child}
use debugger_dap.Protocol.{Kind, request, response, event, Message, from_json}
use debugger_dap.Client.State.{
  Client, HandshakeState, not_performed, in_progress, completed, Context,
}
use debugger_dap.Client.Send
use debugger_dap.Client.Send.{Library, Effect, plain, json_dump, logged, sent}
use debugger_dap.Client.Names.{
  EventName, event_name, ResponseName, response_name, find_file, feature_table, enable_features,
}
use debugger_dap.Client.Dispatch.{
  is_found, json_to_string, send_dap_event, evaluate_with, source_with, stack_trace_with,
  scopes_with, variables_with, breakpoints_with, locations_with, unnamed_response, on_event,
  on_response, on_known, on_completed, is_response, on_handshake, by_state, on_message,
}

-- The bytes among the effects, one text for each call of `Transport::Send`.
abbrev pub sent_bytes : List Effect → List Text
sent_bytes [] = []
sent_bytes (sent bytes ∷ es) = bytes ∷ sent_bytes es
sent_bytes (logged text ∷ es) = sent_bytes es
sent_bytes (e ∷ es) = sent_bytes es

pub sent_bytes-append :
    (es fs : List Effect) → sent_bytes (es ++ fs) ≡ sent_bytes es ++ sent_bytes fs
sent_bytes-append [] fs = refl
sent_bytes-append (sent bytes ∷ es) fs = ap (λ l. bytes ∷ l) (sent_bytes-append es fs)
sent_bytes-append (logged text ∷ es) fs = sent_bytes-append es fs
sent_bytes-append (e ∷ es) fs = sent_bytes-append es fs

-- Nothing is sent.
abbrev IsSilent : Client × List Effect → Type 0
IsSilent r = sent_bytes r.1 ≡ []

if-IsSilent :
    (t : Bool) (c : Client) (r : Client × List Effect)
    → IsSilent r
    → IsSilent (if t then r else (c, []))
if-IsSilent true c r h = h
if-IsSilent false c r h = refl

module _ (library : Library) where
  stack_trace_with-IsSilent :
      (entries : List ℤ) (json : Json) (c : Client)
      → IsSilent (stack_trace_with library entries json c)
  unfolding stack_trace_with send_dap_event
  stack_trace_with-IsSilent [] json c = refl
  stack_trace_with-IsSilent (id ∷ rest) json c = refl

  scopes_with-IsSilent :
      (entries : List ℤ) (json : Json) (c : Client) → IsSilent (scopes_with library entries json c)
  unfolding scopes_with send_dap_event
  scopes_with-IsSilent [] json c = refl
  scopes_with-IsSilent (id ∷ rest) json c = refl

  variables_with-IsSilent :
      (entries : List (ℤ × Context)) (json : Json) (c : Client)
      → IsSilent (variables_with library entries json c)
  unfolding variables_with send_dap_event
  variables_with-IsSilent [] json c = refl
  variables_with-IsSilent ((id, context) ∷ rest) json c = refl

  breakpoints_with-IsSilent :
      (entries : List Text) (json : Json) (c : Client)
      → IsSilent (breakpoints_with library entries json c)
  unfolding breakpoints_with send_dap_event
  breakpoints_with-IsSilent [] json c = refl
  breakpoints_with-IsSilent (file ∷ rest) json c = refl

  evaluate_with-IsSilent :
      (entries : List ℕ) (json : Json) (c : Client)
      → IsSilent (evaluate_with library entries json c)
  unfolding evaluate_with
  evaluate_with-IsSilent [] json c = refl
  evaluate_with-IsSilent (callback ∷ rest) json c = refl

  source_with-IsSilent :
      (entries : List ℕ) (json : Json) (c : Client) → IsSilent (source_with library entries json c)
  unfolding source_with
  source_with-IsSilent [] json c = refl
  source_with-IsSilent (callback ∷ rest) json c = refl

  locations_with-IsSilent :
      (found : Option Text) (id : ℤ) (json : Json) (c : Client)
      → IsSilent (locations_with library found id json c)
  unfolding locations_with send_dap_event
  locations_with-IsSilent none id json c = refl
  locations_with-IsSilent (some path) id json c = refl

  on_event-IsSilent :
      (name : EventName) (json : Json) (c : Client) → IsSilent (on_event library name json c)
  unfolding on_event send_dap_event
  on_event-IsSilent EventName.stopped json c = refl
  on_event-IsSilent EventName.process json c = refl
  on_event-IsSilent _ json c = refl

  on_response-IsSilent :
      (name : ResponseName) (id : ℤ) (json : Json) (c : Client)
      → IsSilent (on_response library name id json c)
  unfolding on_response send_dap_event unnamed_response
  on_response-IsSilent ResponseName.stack_trace id json c =
      stack_trace_with-IsSilent c.frames_queue json c
  on_response-IsSilent ResponseName.scopes id json c = scopes_with-IsSilent c.scopes_queue json c
  on_response-IsSilent ResponseName.variables_list id json c =
      variables_with-IsSilent c.variables_queue json c
  on_response-IsSilent ResponseName.set_breakpoints id json c =
      breakpoints_with-IsSilent c.breakpoints_queue json c
  on_response-IsSilent ResponseName.breakpoint_locations id json c =
      locations_with-IsSilent (find_file c.request_files id) id json c
  on_response-IsSilent ResponseName.evaluate id json c =
      evaluate_with-IsSilent c.evaluate_queue json c
  on_response-IsSilent ResponseName.source id json c = source_with-IsSilent c.sources_queue json c
  on_response-IsSilent ResponseName.unnamed id json c =
      let dump = json_to_string library json in
      if-IsSilent
        (is_found (find (codes "\"success\":false") dump)
          && is_found (find (codes "\"message\":\"Could not attach:") dump))
        c (send_dap_event library Send.attach_response (json_dump dump) json c) refl
  on_response-IsSilent _ id json c = refl

  on_known-IsSilent :
      (kind : Kind) (message : Message) (json : Json) (c : Client)
      → IsSilent (on_known library kind message json c)
  unfolding on_known send_dap_event
  on_known-IsSilent event message json c = on_event-IsSilent (event_name message.name) json c
  on_known-IsSilent response message json c =
      on_response-IsSilent (response_name message.name) message.request_seq json c
  on_known-IsSilent request message json c =
      if-IsSilent (text_eq message.name (codes "runInTerminal")) c
        (send_dap_event library Send.run_in_terminal_request plain json c) refl

  on_completed-IsSilent :
      (parsed : Option Message) (json : Json) (c : Client)
      → IsSilent (on_completed library parsed json c)
  unfolding on_completed
  on_completed-IsSilent none json c = refl
  on_completed-IsSilent (some message) json c = on_known-IsSilent message.kind message json c

  established : Json → Client → Client
  established json c = record c {
    handshake = completed;
    features = enable_features feature_table (child json (codes "body")) c.features;
  }

  on_handshake-IsSilent :
      (parsed : Option Message) (json : Json) (c : Client)
      → IsSilent (on_handshake library parsed json c)
  unfolding on_handshake send_dap_event established
  on_handshake-IsSilent none json c = refl
  on_handshake-IsSilent (some message) json c =
      if-IsSilent (is_response message.kind && text_eq message.name (codes "initialize")) c
        (send_dap_event library Send.initialize_response plain json (established json c)) refl

  by_state-IsSilent :
      (state : HandshakeState) (json : Json) (c : Client) → IsSilent (by_state library state json c)
  unfolding by_state
  by_state-IsSilent completed json c = on_completed-IsSilent (from_json json) json c
  by_state-IsSilent not_performed json c = on_handshake-IsSilent (from_json json) json c
  by_state-IsSilent in_progress json c = on_handshake-IsSilent (from_json json) json c

  unlogged-IsSilent :
      (t : Bool) (text : Text) (es : List Effect)
      → sent_bytes ((if t then logged text ∷ [] else []) ++ es) ≡ sent_bytes es
  unlogged-IsSilent true text es = refl
  unlogged-IsSilent false text es = refl

  pub on_message-sends_nothing :
      (json : Json) (c : Client) → sent_bytes (on_message library json c).1 ≡ []
  unfolding on_message
  on_message-sends_nothing json c =
      unlogged-IsSilent c.wants_log (codes "<-- " ++ json_to_string library json)
        (by_state library c.handshake json c).1
      ∙ by_state-IsSilent c.handshake json c
