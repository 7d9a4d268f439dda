-- ===== src/Client/Dispatch.antt =====
-- `OnMessage` and what it calls (src/DebugAdapterProtocol/Client.cpp). But for the log event, no
-- branch changes a field of the client after it has fired its event or called its callback, so
-- what a handler does to the client is a later action.
use debugger_dap.Common.{
  ℕ, ◌+◌, Bool, true, false, ◌&&◌, List, [], ◌∷◌, ◌++◌, Option, none, some, take, drop,
  if◌then◌else◌,
}
use debugger_dap.Common.Int.{ℤ}
use debugger_dap.Text.{Text, codes, text_eq, find}
use debugger_dap.Json.{Json, child, get_string, get_integer, get_bool}
use debugger_dap.Protocol.{not_found, Kind, request, response, event, Message, from_json}
use debugger_dap.Client.State.{HandshakeState, not_performed, in_progress, completed, Context}
use debugger_dap.Client.Names.{
  feature_table, enable_features, EventName, event_name, ResponseName, response_name, find_file,
  erase_file,
}
use debugger_dap.Client.Send
use debugger_dap.Client.Send.{
  Library, EventType, Detail, plain, ref_id, ref_context, filepath, origin_source, json_dump,
  Effect, logged, fired, evaluated, loaded, Action,
}

unfoldable pub is_found : Option ℕ → Bool
is_found none = false
is_found (some at) = true

unfoldable pub is_response : Kind → Bool
is_response response = true
is_response _ = false

-- `ptr->As<StoppedEvent>()->threadId`
abbrev pub stopped_thread : Json → ℤ
stopped_thread json = get_integer (child (child json (codes "body")) (codes "threadId")) not_found

abbrev body_text : Json → Text → Text
body_text json name = get_string (child (child json (codes "body")) name) []

module _ (library : Library) where
  -- `ToString(false)`
  unfoldable pub json_to_string : Json → Text
  json_to_string none = []
  json_to_string (some node) = library.print node

  up_to_end : Text → Option ℕ → Text
  up_to_end message none = library.before_newline message
  up_to_end message (some ending) = take (ending + 1) message

  error_at : Text → Option ℕ → Text
  unfolding up_to_end
  error_at json none = []
  error_at json (some at) =
      let message = drop (at + 18) json in up_to_end message (find (codes "\",") message)

  -- The string of an event: the error message of a response that has one.
  unfoldable pub error_string : Json → Text
  unfolding error_at json_to_string
  error_string json =
      error_at (json_to_string json) (find (codes "\"error\":{\"format\":") (json_to_string json))

  -- `SendDAPEvent`: a stopped event also sets the active thread.
  unfoldable pub send_dap_event : EventType → Detail → Json → Action
  send_dap_event Send.stopped_event detail json c = (
    record c { active_thread = stopped_thread json },
    fired Send.stopped_event json detail (error_string json) ∷ [],
  )
  send_dap_event type detail json c = (c, fired type json detail (error_string json) ∷ [])

  unfoldable pub evaluate_with : List ℕ → Json → Action
  evaluate_with [] json c = (c, [])
  evaluate_with (callback ∷ rest) json c = (
    record c { evaluate_queue = rest },
    evaluated callback (get_bool (child json (codes "success")) false)
          (body_text json (codes "result")) (body_text json (codes "type"))
          (get_integer (child (child json (codes "body")) (codes "variablesReference")) not_found)
        ∷ [],
  )

  unfoldable pub source_with : List ℕ → Json → Action
  source_with [] json c = (c, [])
  source_with (callback ∷ rest) json c = (
    record c { sources_queue = rest },
    loaded callback (get_bool (child json (codes "success")) false)
          (body_text json (codes "content")) (body_text json (codes "mimeType"))
        ∷ [],
  )

  unfoldable pub stack_trace_with : List ℤ → Json → Action
  unfolding send_dap_event
  stack_trace_with [] json c = send_dap_event Send.stacktrace_response plain json c
  stack_trace_with (id ∷ rest) json c =
      send_dap_event Send.stacktrace_response (ref_id id) json (record c { frames_queue = rest })

  unfoldable pub scopes_with : List ℤ → Json → Action
  unfolding send_dap_event
  scopes_with [] json c = send_dap_event Send.scopes_response plain json c
  scopes_with (id ∷ rest) json c =
      send_dap_event Send.scopes_response (ref_id id) json (record c { scopes_queue = rest })

  unfoldable pub variables_with : List (ℤ × Context) → Json → Action
  unfolding send_dap_event
  variables_with [] json c = send_dap_event Send.variables_response plain json c
  variables_with ((id, context) ∷ rest) json c =
      send_dap_event Send.variables_response (ref_context id context) json
        (record c { variables_queue = rest })

  unfoldable pub breakpoints_with : List Text → Json → Action
  unfolding send_dap_event
  breakpoints_with [] json c = send_dap_event Send.set_source_breakpoint_response plain json c
  breakpoints_with (file ∷ rest) json c =
      send_dap_event Send.set_source_breakpoint_response (origin_source file) json
        (record c { breakpoints_queue = rest })

  unfoldable pub locations_with : Option Text → ℤ → Json → Action
  unfolding send_dap_event
  locations_with none id json c = send_dap_event Send.breakpoint_locations_response plain json c
  locations_with (some path) id json c =
      send_dap_event Send.breakpoint_locations_response (filepath path) json
        (record c { request_files = erase_file c.request_files id })

  -- An adapter answers a failed attach with no command: the text of the message decides.
  unfoldable pub unnamed_response : Json → Action
  unfolding send_dap_event is_found
  unnamed_response json c =
      let dump = json_to_string json in
      if is_found (find (codes "\"success\":false") dump)
        && is_found (find (codes "\"message\":\"Could not attach:") dump)
      then send_dap_event Send.attach_response (json_dump dump) json c
      else (c, [])

  unfoldable pub on_event : EventName → Json → Action
  unfolding send_dap_event
  on_event EventName.stopped json c =
      send_dap_event Send.stopped_event plain json (record c { can_interact = true })
  on_event EventName.process json c = send_dap_event Send.process_event plain json c
  on_event EventName.exited json c = send_dap_event Send.exited_event plain json c
  on_event EventName.terminated json c = send_dap_event Send.terminated_event plain json c
  on_event EventName.initialized json c = send_dap_event Send.initialized_event plain json c
  on_event EventName.output json c = send_dap_event Send.output_event plain json c
  on_event EventName.breakpoint json c = send_dap_event Send.breakpoint_event plain json c
  on_event EventName.continued json c =
      send_dap_event Send.continued_event plain json (record c { can_interact = false })
  on_event EventName.module_loaded json c = send_dap_event Send.module_event plain json c
  on_event EventName.other_event json c = (c, [])

  unfoldable pub on_response : ResponseName → ℤ → Json → Action
  unfolding send_dap_event evaluate_with source_with stack_trace_with scopes_with variables_with
      breakpoints_with locations_with unnamed_response
  on_response ResponseName.stack_trace id json c = stack_trace_with c.frames_queue json c
  on_response ResponseName.scopes id json c = scopes_with c.scopes_queue json c
  on_response ResponseName.variables_list id json c = variables_with c.variables_queue json c
  on_response ResponseName.resumed id json c = (record c { can_interact = false }, [])
  on_response ResponseName.breakpoint_locations id json c =
      locations_with (find_file c.request_files id) id json c
  on_response ResponseName.set_function_breakpoints id json c =
      send_dap_event Send.set_function_breakpoint_response plain json c
  on_response ResponseName.set_exception_breakpoints id json c =
      send_dap_event Send.set_exception_breakpoint_response plain json c
  on_response ResponseName.set_breakpoints id json c = breakpoints_with c.breakpoints_queue json c
  on_response ResponseName.configuration_done id json c =
      send_dap_event Send.configuration_done_response plain json c
  on_response ResponseName.launch id json c = send_dap_event Send.launch_response plain json c
  on_response ResponseName.threads id json c = send_dap_event Send.threads_response plain json c
  on_response ResponseName.disassemble id json c =
      send_dap_event Send.disassemble_response plain json c
  on_response ResponseName.read_memory id json c =
      send_dap_event Send.read_memory_response plain json c
  on_response ResponseName.source id json c = source_with c.sources_queue json c
  on_response ResponseName.evaluate id json c = evaluate_with c.evaluate_queue json c
  on_response ResponseName.goto_targets id json c =
      send_dap_event Send.gototargets_response plain json c
  on_response ResponseName.attach id json c =
      send_dap_event Send.attach_response (json_dump (json_to_string json)) json c
  on_response ResponseName.unnamed id json c = unnamed_response json c
  on_response ResponseName.other_response id json c = (c, [])

  -- The messages behind the handshake, by their kind.
  unfoldable pub on_known : Kind → Message → Json → Action
  unfolding send_dap_event on_event on_response
  on_known event message json c = on_event (event_name message.name) json c
  on_known response message json c =
      on_response (response_name message.name) message.request_seq json c
  on_known request message json c =
      if text_eq message.name (codes "runInTerminal")
      then send_dap_event Send.run_in_terminal_request plain json c
      else (c, [])

  unfoldable pub on_completed : Option Message → Json → Action
  unfolding on_known
  on_completed none json c = (c, [])
  on_completed (some message) json c = on_known message.kind message json c

  -- The answer to `initialize` completes the handshake; every other message is dropped before.
  unfoldable pub on_handshake : Option Message → Json → Action
  unfolding send_dap_event is_response
  on_handshake none json c = (c, [])
  on_handshake (some message) json c =
      if is_response message.kind && text_eq message.name (codes "initialize")
      then send_dap_event Send.initialize_response plain json (record c {
        handshake = completed;
        features = enable_features feature_table (child json (codes "body")) c.features;
      })
      else (c, [])

  unfoldable pub by_state : HandshakeState → Json → Action
  unfolding on_completed on_handshake
  by_state completed json c = on_completed (from_json json) json c
  by_state not_performed json c = on_handshake (from_json json) json c
  by_state in_progress json c = on_handshake (from_json json) json c

  -- `OnMessage`
  unfoldable pub on_message : Json → Action
  unfolding by_state json_to_string
  on_message json c =
      let (c', effects) = by_state c.handshake json c in
      (
        c',
        (if c.wants_log then logged (codes "<-- " ++ json_to_string json) ∷ [] else []) ++ effects,
      )
