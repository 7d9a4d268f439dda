-- ===== src/Tests/Sessions.antt =====
-- Sessions of the client at concrete inputs.
use debugger_dap.Common.{
  ◌≡◌, ◌≢◌, refl, ◌⊎◌, true, false, List, [], ◌∷◌, ◌++◌, map, some, String, ◌<◌, arith,
}
use debugger_dap.Common.Int.{pos, negsuc, int_half}
use debugger_dap.Text.{codes, text_eq}
use debugger_dap.Json.{
  Fields, number, Json, Node, bool, text, object, end, field, child, get_bool, find_field,
  get_string, get_integer, create_object,
}
use debugger_dap.Protocol.{request, pool, is_registered, from_json, kind_of, new_message}
use debugger_dap.Protocol.Requests.{with_arguments}
use debugger_dap.Protocol.RoundTrip.{request_message, from_json-with_arguments}
use debugger_dap.Client.State.{Client, in_progress, completed, step_back, has_bit}
use debugger_dap.Client.Send.{send_request, Library, initialize_response, fired, plain}
use debugger_dap.Client.Api.{get_frames, get_scopes, get_threads, perform}
use debugger_dap.Client.Names.{response_name, feature_table, enable_features}
use debugger_dap.Client.Dispatch.{on_message, error_string, is_response}
use debugger_dap.Client.Wire.{sent_bytes}
use debugger_dap.Client.Wire.Numbers.{IsAscending, run-IsNumbered}
use debugger_dap.Rpc.{frame}
use debugger_dap.Client.Queues
use debugger_dap.Client.Queues.{step, Step, command, incoming, run, put_all, Conserves}
use debugger_dap.Client.Queues.Order.{run-Conserves}
use debugger_dap.Client.Sequence.{HasSent, perform-HasSent}
use debugger_dap.Client.Lost.{IsLost, perform-IsLost}
use debugger_dap.Client.Handshake.{is_answer, established, unlogged, run-handshake}
use debugger_dap.Client.Handshake.Features.{capability, declares, features_exact}

-- A library of which nothing is asked but that it answers.
abbrev pub example_library : Library
example_library = record {
  print = λ node. codes "{}";
  full_name = λ path. path;
  full_path = λ path. path;
  before_newline = λ s. s;
  hex_address = λ address. codes "0x0";
}

-- A client that has sent `initialize`.
abbrev pub waiting : Client
waiting = record {
  transport = true;
  reader = true;
  shutdown = false;
  terminated = false;
  buffer = [];
  sequence = 1;
  handshake = in_progress;
  active_thread = negsuc 0;
  can_interact = false;
  request_files = [];
  features = [];
  wants_log = true;
  frames_queue = [];
  scopes_queue = [];
  variables_queue = [];
  sources_queue = [];
  evaluate_queue = [];
  breakpoints_queue = [];
}

abbrev pub ready : Client
ready = record waiting { handshake = completed }

abbrev unlinked : Client
unlinked = record ready { transport = false }

abbrev response_to : String → Node → Json
response_to name body = some (
    object (
      field (codes "type") (text (codes "response"))
        (field (codes "command") (text (codes name)) (field (codes "body") body end))))

-- Two threads are asked for, and the first answer comes before the second request.
abbrev steps : List Step
steps =
    command (get_frames (pos 1))
    ∷ incoming (response_to "stackTrace" create_object)
    ∷ command (get_frames (pos 7))
    ∷ command (get_scopes (pos 3))
    ∷ incoming (response_to "stackTrace" create_object)
    ∷ []

run-Conserves_example :
    Conserves Queues.frames
      (put_all example_library Queues.frames steps ready)
      ready
      (run example_library steps ready)
run-Conserves_example = run-Conserves example_library Queues.frames steps ready refl

perform-HasSent_example :
    perform example_library (get_frames (pos 1)) ready ≡ (ready, [])
    ⊎ HasSent example_library ready (perform example_library (get_frames (pos 1)) ready)
perform-HasSent_example = perform-HasSent example_library (get_frames (pos 1)) ready refl

perform-IsLost_example :
    perform example_library get_threads unlinked ≡ (unlinked, [])
    ⊎ IsLost (perform example_library get_threads unlinked)
perform-IsLost_example = perform-IsLost example_library get_threads unlinked refl

abbrev early_event : Json
early_event = some (
    object (
      field (codes "type") (text (codes "event"))
        (field (codes "event") (text (codes "output")) end)))

abbrev abilities : Node
abilities = object (
    field (codes "supportsStepBack") (bool true)
      (field (codes "supportsRestartFrame") (bool false) end))

abbrev answer : Json
answer = response_to "initialize" abilities

abbrev two_fields : Fields
two_fields = field (codes "type") (text (codes "event")) (field (codes "seq") (number (pos 1)) end)

early_not_answer : is_answer early_event ≡ false
unfolding from_json new_message kind_of child find_field text_eq get_string get_integer get_bool
    is_registered is_response
early_not_answer = refl

answer-is_answer : is_answer answer ≡ true
unfolding from_json new_message kind_of child find_field text_eq get_string get_integer get_bool
    is_registered is_response
answer-is_answer = refl

in_progress-ne-completed : in_progress ≢ completed
in_progress-ne-completed = cc

run-handshake_example :
    ((run example_library (map incoming (early_event ∷ []) ++ incoming answer ∷ steps) waiting).0
      ≡ (run example_library steps (established answer waiting)).0)
    × (unlogged
          (run example_library
            (map incoming (early_event ∷ []) ++ incoming answer ∷ steps)
            waiting).1
        ≡ fired initialize_response answer plain (error_string example_library answer)
          ∷ unlogged (run example_library steps (established answer waiting)).1)
run-handshake_example =
    run-handshake example_library (early_event ∷ []) answer steps waiting in_progress-ne-completed
      (early_not_answer, tt) answer-is_answer

features_exact_example :
    has_bit (enable_features feature_table (some abilities) []) step_back
    ≡ declares (some abilities) (capability step_back)
features_exact_example = features_exact (some abilities) step_back

next_registered : is_registered (codes "next") (pool request) ≡ true
unfolding is_registered text_eq
next_registered = refl

from_json-with_arguments_example :
    from_json (some (with_arguments (pos 4) "next" create_object))
    ≡ some (request_message (pos 4) "next")
from_json-with_arguments_example =
    from_json-with_arguments (pos 4) "next" create_object next_registered

counter : (run example_library steps ready).0.sequence ≡ 5
unfolding run step perform on_message send_request from_json text_eq get_string child is_registered
    response_name
counter = refl

counted_to : (run example_library steps ready).0.sequence < int_half
counted_to = omega (arith, counter)

run-IsNumbered_example :
    (trees : List Node) × (sent_bytes (run example_library steps ready).1
      ≡ map (λ tree. frame (example_library.print tree)) trees)
    × IsAscending 1 trees (run example_library steps ready).0.sequence
run-IsNumbered_example = run-IsNumbered example_library steps ready refl counted_to
