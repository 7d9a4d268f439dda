-- ===== src/Client/Queues/Messages.antt =====
-- The queues under `OnMessage` (src/DebugAdapterProtocol/Client.cpp).
use debugger_dap.Common.{
  ℕ, ◌≡◌, refl, sym, ap, ◌∙◌, Bool, true, false, ◌&&◌, List, [], ◌∷◌, ◌++◌, append-nil, Option,
  none, some, if◌then◌else◌,
}
use debugger_dap.Common.Int.{ℤ}
use debugger_dap.Text.{Text, codes, text_eq, find}
use debugger_dap.Json.{Json, child}
use debugger_dap.Protocol.{Kind, request, response, event, Message, from_json}
use debugger_dap.Client.State.{Client, HandshakeState, not_performed, in_progress, completed}
use debugger_dap.Client.Send
use debugger_dap.Client.Send.{Library, Detail, json_dump, plain, filepath, Effect, logged}
use debugger_dap.Client.Names.{
  event_name, ResponseName, response_name, find_file, erase_file, feature_table, enable_features,
}
use debugger_dap.Client.Dispatch.{
  is_found, json_to_string, send_dap_event, evaluate_with, source_with, locations_with,
  unnamed_response, on_response, on_known, on_completed, is_response, on_handshake, by_state,
  on_message,
}
use debugger_dap.Client.Queues.{
  Queue, frames, scopes, variables, sources, evaluates, breakpoints, queue, handed, handed_all,
  Conserves, unchanged,
}
use debugger_dap.Client.Queues.Received.{
  send_dap_event-Conserves, plain-Conserves, queue-can_interact, nothing-Conserves,
  on_event-Conserves, stack_trace-Conserves, scopes-Conserves, variables-Conserves,
  breakpoints-Conserves,
}

module _ (library : Library) where
  evaluate-Conserves :
      (q : Queue) (entries : List ℕ) (json : Json) (c : Client)
      → c.evaluate_queue ≡ entries
      → Conserves q [] c (evaluate_with library entries json c)
  unfolding evaluate_with
  evaluate-Conserves q [] json c e = nothing-Conserves library q c
  evaluate-Conserves evaluates (callback ∷ rest) json c e =
      sym e ∙ sym (append-nil c.evaluate_queue)
  evaluate-Conserves frames (callback ∷ rest) json c e = nothing-Conserves library frames c
  evaluate-Conserves scopes (callback ∷ rest) json c e = nothing-Conserves library scopes c
  evaluate-Conserves variables (callback ∷ rest) json c e = nothing-Conserves library variables c
  evaluate-Conserves sources (callback ∷ rest) json c e = nothing-Conserves library sources c
  evaluate-Conserves breakpoints (callback ∷ rest) json c e =
      nothing-Conserves library breakpoints c

  source-Conserves :
      (q : Queue) (entries : List ℕ) (json : Json) (c : Client)
      → c.sources_queue ≡ entries
      → Conserves q [] c (source_with library entries json c)
  unfolding source_with
  source-Conserves q [] json c e = nothing-Conserves library q c
  source-Conserves sources (callback ∷ rest) json c e = sym e ∙ sym (append-nil c.sources_queue)
  source-Conserves frames (callback ∷ rest) json c e = nothing-Conserves library frames c
  source-Conserves scopes (callback ∷ rest) json c e = nothing-Conserves library scopes c
  source-Conserves variables (callback ∷ rest) json c e = nothing-Conserves library variables c
  source-Conserves evaluates (callback ∷ rest) json c e = nothing-Conserves library evaluates c
  source-Conserves breakpoints (callback ∷ rest) json c e = nothing-Conserves library breakpoints c

  locations-Conserves :
      (q : Queue) (found : Option Text) (id : ℤ) (json : Json) (c : Client)
      → Conserves q [] c (locations_with library found id json c)
  unfolding locations_with
  locations-Conserves q none id json c =
      plain-Conserves library q Send.breakpoint_locations_response json c c refl
  locations-Conserves q (some path) id json c =
      send_dap_event-Conserves library q Send.breakpoint_locations_response (filepath path) json c
        (record c { request_files = erase_file c.request_files id }) [] (λ s. hands q s) (same q)
    where
      hands :
          (q : Queue) (s : Text)
          → handed q (Send.fired Send.breakpoint_locations_response json (filepath path) s) ≡ []
      hands frames s = refl
      hands scopes s = refl
      hands _ s = refl

      same :
          (q : Queue)
          → queue q (record c { request_files = erase_file c.request_files id }) ≡ queue q c
      same frames = refl
      same _ = refl

  attach-Conserves :
      (q : Queue) (dump : Text) (json : Json) (c : Client)
      → Conserves q [] c (send_dap_event library Send.attach_response (json_dump dump) json c)
  attach-Conserves q dump json c =
      send_dap_event-Conserves library q Send.attach_response (json_dump dump) json c c [] (hands q)
        refl
    where
      hands :
          (q : Queue) (s : Text)
          → handed q (Send.fired Send.attach_response json (json_dump dump) s) ≡ []
      hands frames s = refl
      hands _ s = refl

  if-Conserves :
      (q : Queue) (b : Bool) (c : Client) (r : Client × List Effect)
      → Conserves q [] c r
      → Conserves q [] c (if b then r else (c, []))
  if-Conserves q true c r h = h
  if-Conserves q false c r h = nothing-Conserves library q c

  on_response-Conserves :
      (q : Queue) (name : ResponseName) (id : ℤ) (json : Json) (c : Client)
      → Conserves q [] c (on_response library name id json c)
  unfolding on_response unnamed_response
  on_response-Conserves q ResponseName.stack_trace id json c =
      stack_trace-Conserves library q c.frames_queue json c refl
  on_response-Conserves q ResponseName.scopes id json c =
      scopes-Conserves library q c.scopes_queue json c refl
  on_response-Conserves q ResponseName.variables_list id json c =
      variables-Conserves library q c.variables_queue json c refl
  on_response-Conserves q ResponseName.resumed id json c =
      unchanged q c (record c { can_interact = false }, []) refl
        (queue-can_interact library q c false)
  on_response-Conserves q ResponseName.breakpoint_locations id json c =
      locations-Conserves q (find_file c.request_files id) id json c
  on_response-Conserves q ResponseName.set_function_breakpoints id json c =
      plain-Conserves library q Send.set_function_breakpoint_response json c c refl
  on_response-Conserves q ResponseName.set_exception_breakpoints id json c =
      plain-Conserves library q Send.set_exception_breakpoint_response json c c refl
  on_response-Conserves q ResponseName.set_breakpoints id json c =
      breakpoints-Conserves library q c.breakpoints_queue json c refl
  on_response-Conserves q ResponseName.configuration_done id json c =
      plain-Conserves library q Send.configuration_done_response json c c refl
  on_response-Conserves q ResponseName.launch id json c =
      plain-Conserves library q Send.launch_response json c c refl
  on_response-Conserves q ResponseName.threads id json c =
      plain-Conserves library q Send.threads_response json c c refl
  on_response-Conserves q ResponseName.disassemble id json c =
      plain-Conserves library q Send.disassemble_response json c c refl
  on_response-Conserves q ResponseName.read_memory id json c =
      plain-Conserves library q Send.read_memory_response json c c refl
  on_response-Conserves q ResponseName.source id json c =
      source-Conserves q c.sources_queue json c refl
  on_response-Conserves q ResponseName.evaluate id json c =
      evaluate-Conserves q c.evaluate_queue json c refl
  on_response-Conserves q ResponseName.goto_targets id json c =
      plain-Conserves library q Send.gototargets_response json c c refl
  on_response-Conserves q ResponseName.attach id json c =
      attach-Conserves q (json_to_string library json) json c
  on_response-Conserves q ResponseName.unnamed id json c =
      let dump = json_to_string library json in
      if-Conserves q
        (is_found (find (codes "\"success\":false") dump)
          && is_found (find (codes "\"message\":\"Could not attach:") dump))
        c (send_dap_event library Send.attach_response (json_dump dump) json c)
        (attach-Conserves q dump json c)
  on_response-Conserves q ResponseName.other_response id json c = nothing-Conserves library q c

  on_known-Conserves :
      (q : Queue) (kind : Kind) (message : Message) (json : Json) (c : Client)
      → Conserves q [] c (on_known library kind message json c)
  unfolding on_known
  on_known-Conserves q event message json c =
      on_event-Conserves library q (event_name message.name) json c
  on_known-Conserves q response message json c =
      on_response-Conserves q (response_name message.name) message.request_seq json c
  on_known-Conserves q request message json c =
      if-Conserves q (text_eq message.name (codes "runInTerminal")) c
        (send_dap_event library Send.run_in_terminal_request plain json c)
        (plain-Conserves library q Send.run_in_terminal_request json c c refl)

  on_completed-Conserves :
      (q : Queue) (parsed : Option Message) (json : Json) (c : Client)
      → Conserves q [] c (on_completed library parsed json c)
  unfolding on_completed
  on_completed-Conserves q none json c = nothing-Conserves library q c
  on_completed-Conserves q (some message) json c = on_known-Conserves q message.kind message json c

  queue-handshake :
      (q : Queue) (c : Client) (json : Json)
      → queue q (record c {
        handshake = completed;
        features = enable_features feature_table (child json (codes "body")) c.features;
      })
        ≡ queue q c
  queue-handshake frames c json = refl
  queue-handshake _ c json = refl

  on_handshake-Conserves :
      (q : Queue) (parsed : Option Message) (json : Json) (c : Client)
      → Conserves q [] c (on_handshake library parsed json c)
  unfolding on_handshake
  on_handshake-Conserves q none json c = nothing-Conserves library q c
  on_handshake-Conserves q (some message) json c =
      if-Conserves q (is_response message.kind && text_eq message.name (codes "initialize")) c
        (send_dap_event library Send.initialize_response plain json (record c {
          handshake = completed;
          features = enable_features feature_table (child json (codes "body")) c.features;
        }))
        (plain-Conserves library q Send.initialize_response json c
          (record c {
            handshake = completed;
            features = enable_features feature_table (child json (codes "body")) c.features;
          })
          (queue-handshake q c json))

  by_state-Conserves :
      (q : Queue) (state : HandshakeState) (json : Json) (c : Client)
      → Conserves q [] c (by_state library state json c)
  unfolding by_state
  by_state-Conserves q completed json c = on_completed-Conserves q (from_json json) json c
  by_state-Conserves q not_performed json c = on_handshake-Conserves q (from_json json) json c
  by_state-Conserves q in_progress json c = on_handshake-Conserves q (from_json json) json c

  handed-logged :
      (q : Queue) (b : Bool) (text : Text) (effects : List Effect)
      → handed_all q ((if b then logged text ∷ [] else []) ++ effects) ≡ handed_all q effects
  handed-logged q false text effects = refl
  handed-logged frames true text effects = refl
  handed-logged scopes true text effects = refl
  handed-logged variables true text effects = refl
  handed-logged sources true text effects = refl
  handed-logged evaluates true text effects = refl
  handed-logged breakpoints true text effects = refl

  pub on_message-Conserves :
      (q : Queue) (json : Json) (c : Client) → Conserves q [] c (on_message library json c)
  unfolding on_message
  on_message-Conserves q json c =
      ap (λ l. l ++ queue q (by_state library c.handshake json c).0)
        (handed-logged q c.wants_log (codes "<-- " ++ json_to_string library json)
          (by_state library c.handshake json c).1)
      ∙ by_state-Conserves q c.handshake json c
