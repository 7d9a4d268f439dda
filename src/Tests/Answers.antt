-- ===== src/Tests/Answers.antt =====
-- What the debugger answers and reports, at concrete inputs.
use debugger_dap.Common.{
  ◌≡◌, refl, arith, true, false, [], ◌∷◌, some, ltb, if◌then◌else◌, ◌+◌, ◌/◌, ◌%◌,
}
use debugger_dap.Common.Int.{ℤ, pos, negsuc}
use debugger_dap.Text.{Text, codes, text_eq}
use debugger_dap.Json.{Json}
use debugger_dap.Json.Strings.{Encoding, EncodingLaws, IsPlain, until_nul}
use debugger_dap.Protocol.Requests.{Source}
use debugger_dap.Protocol.Bodies.{
  Response, response_to, response_from, StackFrame, Variable, Breakpoint, variables_response_from,
  variables_response_to, stack_trace_response_from, stack_trace_response_to,
  set_breakpoints_response_from, set_breakpoints_response_to,
}
use debugger_dap.Protocol.Bodies.RoundTrip.{
  stack_trace_response_round_trip, variables_response_round_trip,
  set_breakpoints_response_round_trip,
}
use debugger_dap.Protocol.Events.{stopped, process, breakpoint, event_to, event_from}
use debugger_dap.Protocol.Events.Back.{event_round_trip}

-- Two bytes where one is not enough, and a locale in which a byte is a character.
utf8_bytes : Text → Text
utf8_bytes [] = []
utf8_bytes (c ∷ s) =
    let rest = utf8_bytes s in
    if ltb c 128 then c ∷ rest else (192 + c / 64) ∷ (128 + c % 64) ∷ rest

abbrev latin_1 : Encoding
latin_1 = record { to_utf8 = utf8_bytes; from_locale = λ s. s }

utf8_bytes-plain : (s : Text) → IsPlain s → utf8_bytes s ≡ s
unfolding utf8_bytes
utf8_bytes-plain [] h = refl
utf8_bytes-plain (c ∷ s) h = ground (arith, h, utf8_bytes-plain s (ground (arith, h)))

latin_1-EncodingLaws : EncodingLaws latin_1
latin_1-EncodingLaws = record { to_utf8-plain = utf8_bytes-plain; from_locale-plain = λ s h. refl }

abbrev reply : Response
reply = record {
  seq = pos 12;
  type = codes "response";
  request_seq = pos 7;
  success = true;
  message = [];
  command = codes "stackTrace";
}

abbrev main_source : Source
main_source = record {
  name = codes "main.cpp";
  path = codes "/src/main.cpp";
  source_reference = pos 0;
}

abbrev pub inner_frame : StackFrame
inner_frame = record {
  id = pos 0;
  name = codes "f";
  source = main_source;
  line = pos 3;
  instruction_pointer_reference = codes "0x10";
}

abbrev pub outer_frame : StackFrame
outer_frame = record {
  id = pos 1;
  name = codes "main";
  source = record { name = []; path = []; source_reference = pos 4 };
  line = pos 20;
  instruction_pointer_reference = [];
}

stack_trace_response_example :
    stack_trace_response_from latin_1
      (some (stack_trace_response_to latin_1 reply (inner_frame ∷ outer_frame ∷ [])))
    ≡ (reply, inner_frame ∷ outer_frame ∷ [])
stack_trace_response_example =
    stack_trace_response_round_trip latin_1 latin_1-EncodingLaws reply
      (inner_frame ∷ outer_frame ∷ []) (refl, refl, refl)
      (((omega arith, refl, refl), refl, refl), (((omega arith, refl, refl), refl, refl), tt))

abbrev number_x : Variable
number_x = record {
  name = codes "x";
  value = codes "3";
  type = codes "int";
  variables_reference = pos 0;
  presentation_hint = record {
    kind = codes "property";
    visibility = codes "public";
    attributes = codes "readOnly" ∷ codes "constant" ∷ [];
  };
}

variables_response_example :
    variables_response_from latin_1
      (number_x ∷ [])
      (some (variables_response_to latin_1 reply (number_x ∷ [])))
    ≡ (reply, number_x ∷ number_x ∷ [])
variables_response_example =
    variables_response_round_trip latin_1 latin_1-EncodingLaws reply (number_x ∷ []) (number_x ∷ [])
      (refl, refl, refl) (((refl, refl, (refl, (refl, tt))), refl, refl, refl), tt)

abbrev placed_breakpoint : Breakpoint
placed_breakpoint = record {
  id = pos 2;
  verified = true;
  message = [];
  source = main_source;
  line = pos 3;
  column = negsuc 0;
  end_line = pos 3;
  end_column = negsuc 0;
}

set_breakpoints_response_example :
    set_breakpoints_response_from latin_1
      (some (set_breakpoints_response_to latin_1 reply (placed_breakpoint ∷ [])))
    ≡ (reply, placed_breakpoint ∷ [])
set_breakpoints_response_example =
    set_breakpoints_response_round_trip latin_1 latin_1-EncodingLaws reply (placed_breakpoint ∷ [])
      (refl, refl, refl) (((omega arith, refl, refl), refl), tt)

printed : Json → Text
printed _ = codes "{}"

decimal : ℤ → Text
decimal _ = codes "7"

-- In such a locale a letter outside ASCII comes back as two.
accent_lost :
    response_from latin_1 (some (response_to latin_1 (record reply { message = 233 ∷ [] })))
    ≡ record reply { message = 195 ∷ 169 ∷ [] }
unfolding response_from response_to utf8_bytes until_nul text_eq
accent_lost = refl

-- A text ends at a NUL.
nul_cuts :
    response_from latin_1 (some (response_to latin_1 (record reply { message = 97 ∷ 0 ∷ [] })))
    ≡ record reply { message = 97 ∷ [] }
unfolding response_from response_to utf8_bytes until_nul text_eq
nul_cuts = refl

event_round_trip_example :
    event_from latin_1 printed decimal
      (some (event_to latin_1 (pos 5) (breakpoint (codes "changed") placed_breakpoint)))
    ≡ some (breakpoint (codes "changed") placed_breakpoint)
event_round_trip_example =
    event_round_trip latin_1 latin_1-EncodingLaws printed decimal (pos 5)
      (breakpoint (codes "changed") placed_breakpoint) (((omega arith, refl, refl), refl), refl)

-- A process that is not local is read as local.
process_not_local :
    event_from latin_1 printed decimal
      (some (event_to latin_1 (pos 1) (process (codes "p") (pos 8) false [] (pos 64))))
    ≡ some (process (codes "p") (pos 8) true [] (pos 64))
unfolding event_from event_to text_eq printed utf8_bytes until_nul
process_not_local = refl

-- A stopped event without a text shows all of the message.
stopped_without_text :
    event_from latin_1 printed decimal
      (some (event_to latin_1 (pos 1) (stopped (codes "step") [] [] true (pos 4))))
    ≡ some (stopped (codes "step") (codes "{}") [] true (pos 4))
unfolding event_from event_to text_eq printed utf8_bytes until_nul
stopped_without_text = refl
