-- ===== src/Tests/Framing.antt =====
-- The framing at concrete inputs.
use debugger_dap.Common.{
  Bool, ◌≡◌, ◌↔◌, ◌≢◌, refl, true, List, [], ◌∷◌, ◌++◌, Option, none, some, take, drop, arith,
  concat, if◌then◌else◌, ◌==◌,
}
use debugger_dap.Common.Int.{pos}
use debugger_dap.Text.{
  Text, codes, starts_with, begins_with, find, text_eq, before_first, after_first, find_char,
  before_at, after_at,
}
use debugger_dap.Text.Find.{starts_with_iff}
use debugger_dap.Text.Decimal.{digits, to_string, atol, atol-to_string}
use debugger_dap.Rpc.{
  quiet, exhausted, header_of, frame, stream, separator, read_headers, header_section, trim,
  read_header, find_header, process_buffer, feed,
}
use debugger_dap.Rpc.Frame.{Carries}
use debugger_dap.Rpc.Drain.{process_buffer_ends}
use debugger_dap.Rpc.Stream.{feed-stream}
use debugger_dap.Rpc.Blocked.{IsStuck, Silent, feed_stuck}
use debugger_dap.Tests.Host.{
  left_trimmed, right_trimmed, is_nil, tokens_from, token, example_host, example_host-HostLaws,
}

-- A parser that takes what begins with a brace.
example_parse : Text → Option Text
example_parse [] = none
example_parse (c ∷ s) = if c == b'{' then some (c ∷ s) else none

abbrev pub first_payload : Text
first_payload = codes "{\"seq\":1}"

abbrev pub second_payload : Text
second_payload = codes "{}"

abbrev pub payloads : List Text
payloads = first_payload ∷ second_payload ∷ []

-- Cut inside the first header, and inside the separator of the second frame.
abbrev pub chunks : List Text
chunks =
    take 5 (stream payloads) ∷ take 44 (drop 5 (stream payloads)) ∷ drop 49 (stream payloads) ∷ []

first-Carries : Carries example_host example_parse first_payload first_payload
unfolding example_parse frame header_of to_string digits
first-Carries = record { not_empty = cc; fits = omega arith; parsed = refl }

second-Carries : Carries example_host example_parse second_payload second_payload
unfolding example_parse frame header_of to_string digits
second-Carries = record { not_empty = cc; fits = omega arith; parsed = refl }

pub chunks-stream : concat chunks ≡ stream payloads
unfolding frame header_of to_string digits
chunks-stream = refl

feed-stream_example :
    feed example_host example_parse [] chunks
    ≡ record { messages = payloads; buffer = []; ending = quiet }
feed-stream_example =
    feed-stream example_host example_parse example_host-HostLaws payloads payloads chunks
      (first-Carries, (second-Carries, tt)) chunks-stream

-- A header section without Content-Length.
abbrev wrong_header : Text
wrong_header = codes "Content-Type: json" ++ separator

wrong_header-IsStuck : IsStuck example_host wrong_header
unfolding read_headers header_section find begins_with trim read_header find_header text_eq
    before_first after_first find_char before_at after_at left_trimmed right_trimmed is_nil
    tokens_from token
wrong_header-IsStuck = record {
  headers = (codes "Content-Type", codes "json") ∷ [];
  size = 22;
  found = refl;
  useless = tt;
}

feed_stuck_example :
    Silent example_host example_parse
      (feed example_host example_parse wrong_header (frame second_payload ∷ []))
feed_stuck_example =
    feed_stuck example_host example_parse wrong_header (frame second_payload ∷ [])
      wrong_header-IsStuck

process_buffer_ends_example :
    (process_buffer example_host example_parse (stream payloads)).ending ≢ exhausted
process_buffer_ends_example = process_buffer_ends example_host example_parse (stream payloads)

starts_with_iff_example :
    (b : Bool) × (starts_with (codes "stepIn") (codes "step") ≡ some b)
    × ((b ≡ true) ↔ ((t : Text) × (codes "stepIn" ≡ codes "step" ++ t)))
starts_with_iff_example = starts_with_iff (codes "stepIn") (codes "step")

atol-to_string_example : atol (to_string 1049) ≡ pos 1049
atol-to_string_example = atol-to_string 1049
