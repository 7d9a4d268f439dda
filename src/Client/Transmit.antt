-- ===== src/Client/Transmit.antt =====
-- `SendRequest` with a transport and without (src/DebugAdapterProtocol/Client.cpp).
use debugger_dap.Common.{◌≡◌, ap, Bool, true, false, List, [], ◌∷◌, ◌++◌, if◌then◌else◌}
use debugger_dap.Text.{codes}
use debugger_dap.Json.{Node}
use debugger_dap.Rpc.{frame}
use debugger_dap.Client.State.{Client}
use debugger_dap.Client.Send.{Library, Effect, sent, logged, on_connection_error, send_request}

module _ (library : Library) where
  -- What `SendRequest` does where there is a transport.
  abbrev pub transmitted : Node → Bool → List Effect
  transmitted request wants_log =
      sent (frame (library.print request))
      ∷ (if wants_log then logged (codes "--> " ++ library.print request) ∷ [] else [])

  pub send_request-connected :
      (request : Node) (c : Client)
      → c.transport ≡ true
      → send_request library request c ≡ (c, transmitted request c.wants_log)
  unfolding send_request
  send_request-connected request c e =
      ap (λ b. if b then (c, transmitted request c.wants_log) else on_connection_error c) e

  pub send_request-disconnected :
      (request : Node) (c : Client)
      → c.transport ≡ false
      → send_request library request c ≡ on_connection_error c
  unfolding send_request
  send_request-disconnected request c e =
      ap (λ b. if b then (c, transmitted request c.wants_log) else on_connection_error c) e
