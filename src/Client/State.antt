-- ===== src/Client/State.antt =====
-- The state of `dap::Client`, its features and `Reset` (src/DebugAdapterProtocol/Client.hpp).
use debugger_dap.Common.{ℕ, Bool, true, false, not, ◌&&◌, ◌||◌, List, [], ◌∷◌, ◌==◌}
use debugger_dap.Common.Int.{ℤ}
use debugger_dap.Text.{Text}
use debugger_dap.Protocol.{not_found}

-- `eHandshakeState`
pub data HandshakeState : Type 0 where
  not_performed in_progress completed : HandshakeState

-- `EvaluateContext`
pub data Context : Type 0 where
  variables watch repl hover clipboard : Context

-- `eFeatures`, with the position of its bit.
pub data Feature : Type 0 where
  configuration_done_request function_breakpoints conditional_breakpoints : Feature
  hit_conditional_breakpoints evaluate_for_hovers step_back set_variable restart_frame : Feature
  goto_targets_request step_in_targets_request completions_request modules_request : Feature
  restart_request exception_options value_formatting_options exception_info_request : Feature
  terminate_debuggee delayed_stack_trace_loading loaded_sources_request progress_reporting : Feature
  run_in_terminal_request breakpoint_locations_request disassemble_request : Feature
  goto_request read_memory_request : Feature

abbrev pub shift : Feature → ℕ
shift configuration_done_request = 0
shift function_breakpoints = 1
shift conditional_breakpoints = 2
shift hit_conditional_breakpoints = 3
shift evaluate_for_hovers = 4
shift step_back = 5
shift set_variable = 6
shift restart_frame = 7
shift goto_targets_request = 8
shift step_in_targets_request = 9
shift completions_request = 10
shift modules_request = 11
shift restart_request = 12
shift exception_options = 13
shift value_formatting_options = 14
shift exception_info_request = 15
shift terminate_debuggee = 16
shift delayed_stack_trace_loading = 17
shift loaded_sources_request = 18
shift progress_reporting = 19
shift run_in_terminal_request = 20
shift breakpoint_locations_request = 21
shift disassemble_request = 22
shift goto_request = 23
shift read_memory_request = 24

-- The fields of the class. A callback is a number by which it is told from the others, `features`
-- holds the bits of `m_features` that are set, and the maps and vectors are lists.
pub record Client : Type 0 where
  pub transport : Bool
  pub reader : Bool
  pub shutdown : Bool
  pub terminated : Bool
  pub buffer : Text
  pub sequence : ℕ
  pub handshake : HandshakeState
  pub active_thread : ℤ
  pub can_interact : Bool
  pub request_files : List (ℕ × Text)
  pub features : List Feature
  pub wants_log : Bool
  pub frames_queue : List ℤ
  pub scopes_queue : List ℤ
  pub variables_queue : List (ℤ × Context)
  pub sources_queue : List ℕ
  pub evaluate_queue : List ℕ
  pub breakpoints_queue : List Text

unfoldable pub has_bit : List Feature → Feature → Bool
has_bit [] feature = false
has_bit (f ∷ rest) feature = shift f == shift feature || has_bit rest feature

-- `IsSupported`
unfoldable pub is_supported : Client → Feature → Bool
unfolding has_bit
is_supported c feature = has_bit c.features feature

-- `IsConnected`
unfoldable pub is_connected : Client → Bool
is_connected c = c.reader && not c.terminated

-- `Reset`: `m_wants_log_events` is the one field that it leaves alone.
unfoldable pub reset : Client → Client
reset c = record {
  transport = false;
  reader = false;
  shutdown = false;
  terminated = false;
  buffer = [];
  sequence = 0;
  handshake = not_performed;
  active_thread = not_found;
  can_interact = false;
  request_files = [];
  features = [];
  wants_log = c.wants_log;
  frames_queue = [];
  scopes_queue = [];
  variables_queue = [];
  sources_queue = [];
  evaluate_queue = [];
  breakpoints_queue = [];
}

-- `SetTransport` with a transport that is not null; the reader thread starts.
unfoldable pub set_transport : Client → Client
unfolding reset
set_transport c = let r = reset c in record r { transport = true; reader = true }
