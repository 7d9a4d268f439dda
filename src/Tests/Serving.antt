-- ===== src/Tests/Serving.antt =====
-- The server over a stream of frames, at concrete inputs.
use debugger_dap.Common.{
  arith, ◌≡◌, refl, true, List, [], ◌∷◌, Option, none, some, map, ◌==◌, if◌then◌else◌,
}
use debugger_dap.Common.Int.{pos}
use debugger_dap.Text.{Text, text_eq}
use debugger_dap.Text.Decimal.{digits, to_string}
use debugger_dap.Json.{Node, create_object}
use debugger_dap.Rpc.{header_of, frame}
use debugger_dap.Rpc.Frame.{Carries}
use debugger_dap.Protocol.{is_registered}
use debugger_dap.Protocol.Requests.{with_arguments}
use debugger_dap.Protocol.RoundTrip.{request_message}
use debugger_dap.Server.{handed, checks}
use debugger_dap.Server.Stream.{Request, IsKnown, checks-requests}
use debugger_dap.Tests.Host.{example_host, example_host-HostLaws}
use debugger_dap.Tests.Framing.{first_payload, second_payload, payloads, chunks, chunks-stream}

abbrev asked : Request
asked = record { seq = pos 1; command = "initialize"; arguments = create_object }

abbrev answered : Node
answered = with_arguments (pos 1) "initialize" create_object

-- A parser that reads a request from what begins with a brace.
request_parse : Text → Option Node
request_parse [] = none
request_parse (c ∷ s) = if c == b'{' then some answered else none

first-Carries : Carries example_host request_parse answered first_payload
unfolding request_parse frame header_of to_string digits
first-Carries = record { not_empty = cc; fits = omega arith; parsed = refl }

second-Carries : Carries example_host request_parse answered second_payload
unfolding request_parse frame header_of to_string digits
second-Carries = record { not_empty = cc; fits = omega arith; parsed = refl }

known : IsKnown asked
unfolding is_registered text_eq
known = refl

-- The reads, with one that finds nothing.
abbrev reads : List (Option Text)
reads = none ∷ map some chunks

checks-requests_example :
    (handed (checks example_host request_parse true [] reads).messages
      ≡ request_message (pos 1) "initialize" ∷ request_message (pos 1) "initialize" ∷ [])
    × ((checks example_host request_parse true [] reads).buffer ≡ [])
checks-requests_example =
    checks-requests example_host request_parse example_host-HostLaws (asked ∷ asked ∷ []) payloads
      reads (known, (known, tt)) (first-Carries, (second-Carries, tt)) chunks-stream
