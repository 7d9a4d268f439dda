-- ===== src/Client/Core.antt =====
-- `OnMessage` and the fields of the connection, and behind the handshake also its result
-- (src/DebugAdapterProtocol/Client.cpp).
use debugger_dap.Common.{
  ℕ, ◌≡◌, refl, ap, Bool, true, false, ◌&&◌, List, [], ◌∷◌, Option, none, some, if◌then◌else◌,
}
use debugger_dap.Common.Int.{ℤ}
use debugger_dap.Text.{Text, codes, text_eq, find}
use debugger_dap.Json.{Json, child}
use debugger_dap.Protocol.{Kind, request, response, event, Message, from_json}
use debugger_dap.Client.State.{
  Client, Feature, HandshakeState, not_performed, in_progress, completed, Context,
}
use debugger_dap.Client.Send
use debugger_dap.Client.Send.{Library, Effect, plain, json_dump}
use debugger_dap.Client.Names.{
  EventName, event_name, ResponseName, response_name, find_file, feature_table, enable_features,
}
use debugger_dap.Client.Dispatch.{
  is_found, json_to_string, send_dap_event, evaluate_with, source_with, stack_trace_with,
  scopes_with, variables_with, breakpoints_with, locations_with, unnamed_response, on_event,
  on_response, on_known, on_completed, is_response, on_handshake, by_state, on_message,
}

pub record Core : Type 0 where
  pub transport : Bool
  pub reader : Bool
  pub shutdown : Bool
  pub terminated : Bool
  pub buffer : Text
  pub sequence : ℕ
  pub wants_log : Bool

abbrev pub core : Client → Core
core c = record {
  transport = c.transport;
  reader = c.reader;
  shutdown = c.shutdown;
  terminated = c.terminated;
  buffer = c.buffer;
  sequence = c.sequence;
  wants_log = c.wants_log;
}

-- The core, with the result of the handshake.
abbrev pub settled : Client → Core × HandshakeState × List Feature
settled c = (core c, c.handshake, c.features)

if-settled :
    (b : Bool) (c : Client) (r : Client × List Effect)
    → settled r.0 ≡ settled c
    → settled (if b then r else (c, [])).0 ≡ settled c
if-settled true c r h = h
if-settled false c r h = refl

if-core :
    (b : Bool) (c : Client) (r : Client × List Effect)
    → core r.0 ≡ core c
    → core (if b then r else (c, [])).0 ≡ core c
if-core true c r h = h
if-core false c r h = refl

module _ (library : Library) where
  stack_trace_with-settled :
      (entries : List ℤ) (json : Json) (c : Client)
      → settled (stack_trace_with library entries json c).0 ≡ settled c
  unfolding stack_trace_with send_dap_event
  stack_trace_with-settled [] json c = refl
  stack_trace_with-settled (id ∷ rest) json c = refl

  scopes_with-settled :
      (entries : List ℤ) (json : Json) (c : Client)
      → settled (scopes_with library entries json c).0 ≡ settled c
  unfolding scopes_with send_dap_event
  scopes_with-settled [] json c = refl
  scopes_with-settled (id ∷ rest) json c = refl

  variables_with-settled :
      (entries : List (ℤ × Context)) (json : Json) (c : Client)
      → settled (variables_with library entries json c).0 ≡ settled c
  unfolding variables_with send_dap_event
  variables_with-settled [] json c = refl
  variables_with-settled ((id, context) ∷ rest) json c = refl

  breakpoints_with-settled :
      (entries : List Text) (json : Json) (c : Client)
      → settled (breakpoints_with library entries json c).0 ≡ settled c
  unfolding breakpoints_with send_dap_event
  breakpoints_with-settled [] json c = refl
  breakpoints_with-settled (file ∷ rest) json c = refl

  locations_with-settled :
      (found : Option Text) (id : ℤ) (json : Json) (c : Client)
      → settled (locations_with library found id json c).0 ≡ settled c
  unfolding locations_with send_dap_event
  locations_with-settled none id json c = refl
  locations_with-settled (some path) id json c = refl

  evaluate_with-settled :
      (entries : List ℕ) (json : Json) (c : Client)
      → settled (evaluate_with library entries json c).0 ≡ settled c
  unfolding evaluate_with
  evaluate_with-settled [] json c = refl
  evaluate_with-settled (callback ∷ rest) json c = refl

  source_with-settled :
      (entries : List ℕ) (json : Json) (c : Client)
      → settled (source_with library entries json c).0 ≡ settled c
  unfolding source_with
  source_with-settled [] json c = refl
  source_with-settled (callback ∷ rest) json c = refl

  on_event-settled :
      (name : EventName) (json : Json) (c : Client)
      → settled (on_event library name json c).0 ≡ settled c
  unfolding on_event send_dap_event
  on_event-settled EventName.stopped json c = refl
  on_event-settled EventName.process json c = refl
  on_event-settled _ json c = refl

  on_response-settled :
      (name : ResponseName) (id : ℤ) (json : Json) (c : Client)
      → settled (on_response library name id json c).0 ≡ settled c
  unfolding on_response send_dap_event unnamed_response
  on_response-settled ResponseName.stack_trace id json c =
      stack_trace_with-settled c.frames_queue json c
  on_response-settled ResponseName.scopes id json c = scopes_with-settled c.scopes_queue json c
  on_response-settled ResponseName.variables_list id json c =
      variables_with-settled c.variables_queue json c
  on_response-settled ResponseName.set_breakpoints id json c =
      breakpoints_with-settled c.breakpoints_queue json c
  on_response-settled ResponseName.breakpoint_locations id json c =
      locations_with-settled (find_file c.request_files id) id json c
  on_response-settled ResponseName.evaluate id json c =
      evaluate_with-settled c.evaluate_queue json c
  on_response-settled ResponseName.source id json c = source_with-settled c.sources_queue json c
  on_response-settled ResponseName.unnamed id json c =
      let dump = json_to_string library json in
      if-settled
        (is_found (find (codes "\"success\":false") dump)
          && is_found (find (codes "\"message\":\"Could not attach:") dump))
        c (send_dap_event library Send.attach_response (json_dump dump) json c) refl
  on_response-settled _ id json c = refl

  on_known-settled :
      (kind : Kind) (message : Message) (json : Json) (c : Client)
      → settled (on_known library kind message json c).0 ≡ settled c
  unfolding on_known send_dap_event
  on_known-settled event message json c = on_event-settled (event_name message.name) json c
  on_known-settled response message json c =
      on_response-settled (response_name message.name) message.request_seq json c
  on_known-settled request message json c =
      if-settled (text_eq message.name (codes "runInTerminal")) c
        (send_dap_event library Send.run_in_terminal_request plain json c) refl

  pub on_completed-settled :
      (parsed : Option Message) (json : Json) (c : Client)
      → settled (on_completed library parsed json c).0 ≡ settled c
  unfolding on_completed
  on_completed-settled none json c = refl
  on_completed-settled (some message) json c = on_known-settled message.kind message json c

  on_handshake-core :
      (parsed : Option Message) (json : Json) (c : Client)
      → core (on_handshake library parsed json c).0 ≡ core c
  unfolding on_handshake send_dap_event
  on_handshake-core none json c = refl
  on_handshake-core (some message) json c =
      if-core (is_response message.kind && text_eq message.name (codes "initialize")) c
        (send_dap_event library Send.initialize_response plain json (record c {
          handshake = completed;
          features = enable_features feature_table (child json (codes "body")) c.features;
        }))
        refl

  by_state-core :
      (state : HandshakeState) (json : Json) (c : Client)
      → core (by_state library state json c).0 ≡ core c
  unfolding by_state
  by_state-core completed json c = ap (λ s. s.0) (on_completed-settled (from_json json) json c)
  by_state-core not_performed json c = on_handshake-core (from_json json) json c
  by_state-core in_progress json c = on_handshake-core (from_json json) json c

  pub on_message-core : (json : Json) (c : Client) → core (on_message library json c).0 ≡ core c
  unfolding on_message
  on_message-core json c = by_state-core c.handshake json c
