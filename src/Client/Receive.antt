-- ===== src/Client/Receive.antt =====
-- `OnDataRead` of `dap::Client` (src/DebugAdapterProtocol/Client.cpp): the loop of `ProcessBuffer`
-- (JsonRPC.cpp) with `OnMessage` for its callback.
pub mod Stream
use debugger_dap.Common.{ℕ, zero, suc, List, [], ◌∷◌, ◌++◌, Option, some, length}
use debugger_dap.Text.{Text}
use debugger_dap.Json.{Node}
use debugger_dap.Rpc.{Host, Outcome, idle, fault, message, do_process_buffer}
use debugger_dap.Client.State.{Client}
use debugger_dap.Client.Send.{Library, Effect, Action}
use debugger_dap.Client.Dispatch.{on_message}

module _ (host : Host) (library : Library) (parse : Text → Option Node) where
  -- What follows a call of `DoProcessBuffer`: the callback, and the next round.
  unfoldable pub after_outcome : Outcome Node × Text → Client → Action → Client × List Effect
  after_outcome (idle, rest) c again = (record c { buffer = rest }, [])
  after_outcome (fault, rest) c again = (record c { buffer = rest }, [])
  after_outcome (message node, rest) c again =
      let (c', effects) = on_message library (some node) (record c { buffer = rest }) in
      let (last, later) = again c' in (last, effects ++ later)

  -- The loop of `ProcessBuffer`, on fuel.
  unfoldable pub process_messages : ℕ → Action
  unfolding after_outcome
  process_messages zero c = (c, [])
  process_messages (suc fuel) c =
      after_outcome (do_process_buffer host parse c.buffer) c (process_messages fuel)

  -- `OnDataRead`
  unfoldable pub read_data : Text → Action
  unfolding process_messages
  read_data [] c = (c, [])
  read_data (x ∷ chunk) c =
      process_messages (suc (length (c.buffer ++ x ∷ chunk)))
        (record c { buffer = c.buffer ++ x ∷ chunk })

  -- The chunks that the reader thread posts, one after another.
  unfoldable pub receive : List Text → Action
  unfolding read_data
  receive [] c = (c, [])
  receive (chunk ∷ chunks) c =
      let (c', effects) = read_data chunk c in
      let (last, later) = receive chunks c' in (last, effects ++ later)
