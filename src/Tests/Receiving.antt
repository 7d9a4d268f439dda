-- ===== src/Tests/Receiving.antt =====
-- The client over a stream of frames, at concrete inputs.
use debugger_dap.Common.{arith, ◌≡◌, refl, [], ◌∷◌, Option, none, some, ◌==◌, if◌then◌else◌}
use debugger_dap.Text.{Text}
use debugger_dap.Text.Decimal.{digits, to_string}
use debugger_dap.Json.{Node, create_object}
use debugger_dap.Rpc.{header_of, frame}
use debugger_dap.Rpc.Frame.{Carries}
use debugger_dap.Client.Queues.{run}
use debugger_dap.Client.Buffer.{with_buffer}
use debugger_dap.Client.Receive.{receive}
use debugger_dap.Client.Receive.Stream.{arrivals, receive-stream}
use debugger_dap.Tests.Host.{example_host, example_host-HostLaws}
use debugger_dap.Tests.Framing.{first_payload, second_payload, payloads, chunks, chunks-stream}
use debugger_dap.Tests.Sessions.{example_library, ready}

-- A parser that makes an object of what begins with a brace.
node_parse : Text → Option Node
node_parse [] = none
node_parse (c ∷ s) = if c == b'{' then some create_object else none

first-Carries : Carries example_host node_parse create_object first_payload
unfolding node_parse frame header_of to_string digits
first-Carries = record { not_empty = cc; fits = omega arith; parsed = refl }

second-Carries : Carries example_host node_parse create_object second_payload
unfolding node_parse frame header_of to_string digits
second-Carries = record { not_empty = cc; fits = omega arith; parsed = refl }

receive-stream_example :
    receive example_host example_library node_parse chunks ready
    ≡ with_buffer [] (run example_library (arrivals (create_object ∷ create_object ∷ [])) ready)
receive-stream_example =
    receive-stream example_host example_library node_parse example_host-HostLaws
      (create_object ∷ create_object ∷ []) payloads chunks ready
      (first-Carries, (second-Carries, tt)) chunks-stream
