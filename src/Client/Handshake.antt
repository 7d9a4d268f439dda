-- ===== src/Client/Handshake.antt =====
-- The handshake of `dap::Client::OnMessage` (src/DebugAdapterProtocol/Client.cpp).
pub mod Features
use debugger_dap.Common.{
  ℕ, arith, ◌≡◌, ◌≢◌, refl, sym, ap, ◌∙◌, Bool, true, false, ◌&&◌, List, [], ◌∷◌, ◌++◌, map, All,
  Option, none, some, if◌then◌else◌,
}
use debugger_dap.Text.{Text, codes, text_eq}
use debugger_dap.Json.{Json, child}
use debugger_dap.Protocol.{Message, from_json}
use debugger_dap.Client.State.{Client, HandshakeState, not_performed, in_progress, completed}
use debugger_dap.Client.Send
use debugger_dap.Client.Send.{Library, Effect, plain, fired, logged}
use debugger_dap.Client.Names.{feature_table, enable_features}
use debugger_dap.Client.Dispatch.{
  json_to_string, error_string, send_dap_event, is_response, on_handshake, by_state, on_message,
}
use debugger_dap.Client.Queues.{Step, incoming, step, run}

-- The response to `initialize`.
abbrev is_answer_message : Option Message → Bool
is_answer_message none = false
is_answer_message (some message) =
    is_response message.kind && text_eq message.name (codes "initialize")

abbrev pub is_answer : Json → Bool
is_answer json = is_answer_message (from_json json)

-- The client when the answer has come.
abbrev pub established : Json → Client → Client
established answer c = record c {
  handshake = completed;
  features = enable_features feature_table (child answer (codes "body")) c.features;
}

-- The effects but the log.
abbrev pub unlogged : List Effect → List Effect
unlogged [] = []
unlogged (logged text ∷ es) = unlogged es
unlogged (Send.sent bytes ∷ es) = Send.sent bytes ∷ unlogged es
unlogged (e ∷ es) = e ∷ unlogged es

unlogged-append : (es fs : List Effect) → unlogged (es ++ fs) ≡ unlogged es ++ unlogged fs
unlogged-append [] fs = refl
unlogged-append (logged text ∷ es) fs = unlogged-append es fs
unlogged-append (Send.sent bytes ∷ es) fs = ap (λ l. Send.sent bytes ∷ l) (unlogged-append es fs)
unlogged-append (e ∷ es) fs = ap (λ l. e ∷ l) (unlogged-append es fs)

module _ (library : Library) where
  on_handshake-other :
      (parsed : Option Message) (json : Json) (c : Client)
      → is_answer_message parsed ≡ false
      → on_handshake library parsed json c ≡ (c, [])
  unfolding on_handshake
  on_handshake-other none json c e = refl
  on_handshake-other (some message) json c e =
      ap
        (λ b.
          if b
          then send_dap_event library Send.initialize_response plain json (established json c)
          else (c, []))
        e

  on_handshake-answer :
      (parsed : Option Message) (json : Json) (c : Client)
      → is_answer_message parsed ≡ true
      → on_handshake library parsed json c ≡ (
        established json c,
        fired Send.initialize_response json plain (error_string library json) ∷ [],
      )
  unfolding on_handshake send_dap_event
  on_handshake-answer none json c e = ground (arith, e)
  on_handshake-answer (some message) json c e =
      ap
        (λ b.
          if b
          then send_dap_event library Send.initialize_response plain json (established json c)
          else (c, []))
        e

  by_state-early :
      (state : HandshakeState) (json : Json) (c : Client)
      → state ≢ completed
      → by_state library state json c ≡ on_handshake library (from_json json) json c
  unfolding by_state
  by_state-early not_performed json c n = refl
  by_state-early in_progress json c n = refl
  by_state-early completed json c n = absurd (n refl)

  unlogged-log :
      (b : Bool) (text : Text) (es : List Effect)
      → unlogged ((if b then logged text ∷ [] else []) ++ es) ≡ unlogged es
  unlogged-log true text es = refl
  unlogged-log false text es = refl

  -- A message while the handshake is not completed, by the result of `on_handshake`.
  on_message-early :
      (json : Json) (c : Client) (r : Client × List Effect)
      → c.handshake ≢ completed
      → on_handshake library (from_json json) json c ≡ r
      → ((on_message library json c).0 ≡ r.0)
        × (unlogged (on_message library json c).1 ≡ unlogged r.1)
  unfolding on_message
  on_message-early json c r n e =
      let same = by_state-early c.handshake json c n ∙ e in
      (
        ap (λ r. r.0) same,
        unlogged-log c.wants_log (codes "<-- " ++ json_to_string library json)
              (by_state library c.handshake json c).1
            ∙ ap (λ r. unlogged r.1) same,
      )

  -- While the handshake is not completed, messages that are not the response to `initialize` leave
  -- no trace but the log: the session goes on as if they had not come. The response completes the
  -- handshake, with the features that it declares, and fires the one event that it is announced
  -- with; the rest of the session runs on the client that it leaves.
  pub run-handshake :
      (early : List Json) (answer : Json) (later : List Step) (c : Client)
      → c.handshake ≢ completed
      → All (λ json. is_answer json ≡ false) early
      → is_answer answer ≡ true
      → ((run library (map incoming early ++ incoming answer ∷ later) c).0
          ≡ (run library later (established answer c)).0)
        × (unlogged (run library (map incoming early ++ incoming answer ∷ later) c).1
            ≡ fired Send.initialize_response answer plain (error_string library answer)
              ∷ unlogged (run library later (established answer c)).1)
  unfolding run step
  run-handshake [] answer later c n h a =
      let (last, effects) =
        on_message-early answer c
          (
            established answer c,
            fired Send.initialize_response answer plain (error_string library answer) ∷ [],
          )
          n (on_handshake-answer (from_json answer) answer c a) in
      (
        ap (λ d. (run library later d).0) last,
        unlogged-append (on_message library answer c).1
              (run library later (on_message library answer c).0).1
            ∙ ap (λ l. l ++ unlogged (run library later (on_message library answer c).0).1) effects
            ∙ ap
                (λ d.
                  fired Send.initialize_response answer plain (error_string library answer)
                  ∷ unlogged (run library later d).1)
                last,
      )
  run-handshake (json ∷ early) answer later c n h a =
      let (same, effects) =
        on_message-early json c (c, []) n (on_handshake-other (from_json json) json c h.0) in
      let rest = map incoming early ++ incoming answer ∷ later in
      let (last, after) = run-handshake early answer later c n h.1 a in
      (
        ap (λ d. (run library rest d).0) same ∙ last,
        unlogged-append (on_message library json c).1
              (run library rest (on_message library json c).0).1
            ∙ ap (λ l. l ++ unlogged (run library rest (on_message library json c).0).1) effects
            ∙ ap (λ d. unlogged (run library rest d).1) same
            ∙ after,
      )
