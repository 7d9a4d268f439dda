-- ===== src/Client/Handshake/Features.antt =====
-- The features of the handshake: ENABLE_FEATURE and `IsSupported`
-- (src/DebugAdapterProtocol/Client.cpp, Client.hpp).
use debugger_dap.Common.{
  ◌≡◌, refl, ap, ◌∙◌, Bool, true, false, ◌&&◌, ◌||◌, ◌==◌, List, [], ◌∷◌, Option, none, some,
  String, if◌then◌else◌,
}
use debugger_dap.Text.{codes}
use debugger_dap.Json.{Json, child, get_bool}
use debugger_dap.Client.State.{
  Feature, shift, has_bit, goto_request, configuration_done_request, function_breakpoints,
  conditional_breakpoints, hit_conditional_breakpoints, evaluate_for_hovers, step_back,
  set_variable, restart_frame, goto_targets_request, step_in_targets_request, completions_request,
  modules_request, restart_request, exception_options, value_formatting_options,
  exception_info_request, terminate_debuggee, delayed_stack_trace_loading, loaded_sources_request,
  progress_reporting, run_in_terminal_request, breakpoint_locations_request, disassemble_request,
  read_memory_request,
}
use debugger_dap.Client.Names.{feature_table, enable_features}

-- The capability of the protocol that a feature stands for: no capability grants `goto_request`.
abbrev pub capability : Feature → Option String
capability configuration_done_request = some "supportsConfigurationDoneRequest"
capability function_breakpoints = some "supportsFunctionBreakpoints"
capability conditional_breakpoints = some "supportsConditionalBreakpoints"
capability hit_conditional_breakpoints = some "supportsHitConditionalBreakpoints"
capability evaluate_for_hovers = some "supportsEvaluateForHovers"
capability step_back = some "supportsStepBack"
capability set_variable = some "supportsSetVariable"
capability restart_frame = some "supportsRestartFrame"
capability goto_targets_request = some "supportsGotoTargetsRequest"
capability step_in_targets_request = some "supportsStepInTargetsRequest"
capability completions_request = some "supportsCompletionsRequest"
capability modules_request = some "supportsModulesRequest"
capability restart_request = some "supportsRestartRequest"
capability exception_options = some "supportsExceptionOptions"
capability value_formatting_options = some "supportsValueFormattingOptions"
capability exception_info_request = some "supportsExceptionInfoRequest"
capability terminate_debuggee = some "supportTerminateDebuggee"
capability delayed_stack_trace_loading = some "supportsDelayedStackTraceLoading"
capability loaded_sources_request = some "supportsLoadedSourcesRequest"
capability progress_reporting = some "supportsProgressReporting"
capability run_in_terminal_request = some "supportsRunInTerminalRequest"
capability breakpoint_locations_request = some "supportsBreakpointLocationsRequest"
capability disassemble_request = some "supportsDisassembleRequest"
capability read_memory_request = some "supportsReadMemoryRequest"
capability goto_request = none

-- A capability that the body of the response declares.
abbrev pub declares : Json → Option String → Bool
declares body none = false
declares body (some name) = get_bool (child body (codes name)) false

-- Some line of the table that grants a feature finds its capability.
granted : List (Feature × String) → Json → Feature → Bool
granted [] body feature = false
granted ((f, name) ∷ rest) body feature =
    (shift f == shift feature && get_bool (child body (codes name)) false)
    || granted rest body feature

has_bit-if :
    (b : Bool) (f feature : Feature) (features : List Feature)
    → has_bit (if b then f ∷ features else features) feature
      ≡ (shift f == shift feature && b) || has_bit features feature
unfolding has_bit
has_bit-if true f feature features =
    ap (λ x. x || has_bit features feature) (and_true (shift f == shift feature))
  where
    and_true : (b : Bool) → b ≡ b && true
    and_true true = refl
    and_true false = refl
has_bit-if false f feature features =
    ap (λ x. x || has_bit features feature) (and_false (shift f == shift feature))
  where
    and_false : (b : Bool) → false ≡ b && false
    and_false true = refl
    and_false false = refl

or_swap : (a b c : Bool) → a || (b || c) ≡ (b || a) || c
or_swap true true c = refl
or_swap true false c = refl
or_swap false true c = refl
or_swap false false c = refl

or_false : (b : Bool) → b || false ≡ b
or_false true = refl
or_false false = refl

has_bit-enable_features :
    (table : List (Feature × String)) (body : Json) (features : List Feature) (feature : Feature)
    → has_bit (enable_features table body features) feature
      ≡ granted table body feature || has_bit features feature
unfolding enable_features granted
has_bit-enable_features [] body features feature = refl
has_bit-enable_features ((f, name) ∷ rest) body features feature =
    let b = get_bool (child body (codes name)) false in
    has_bit-enable_features rest body (if b then f ∷ features else features) feature
    ∙ ap (λ x. granted rest body feature || x) (has_bit-if b f feature features)
    ∙ or_swap (granted rest body feature) (shift f == shift feature && b) (has_bit features feature)

granted-feature_table :
    (feature : Feature) (body : Json)
    → granted feature_table body feature ≡ declares body (capability feature)
unfolding granted
granted-feature_table configuration_done_request body =
    or_false (get_bool (child body (codes "supportsConfigurationDoneRequest")) false)
granted-feature_table function_breakpoints body =
    or_false (get_bool (child body (codes "supportsFunctionBreakpoints")) false)
granted-feature_table conditional_breakpoints body =
    or_false (get_bool (child body (codes "supportsConditionalBreakpoints")) false)
granted-feature_table hit_conditional_breakpoints body =
    or_false (get_bool (child body (codes "supportsHitConditionalBreakpoints")) false)
granted-feature_table evaluate_for_hovers body =
    or_false (get_bool (child body (codes "supportsEvaluateForHovers")) false)
granted-feature_table step_back body =
    or_false (get_bool (child body (codes "supportsStepBack")) false)
granted-feature_table set_variable body =
    or_false (get_bool (child body (codes "supportsSetVariable")) false)
granted-feature_table restart_frame body =
    or_false (get_bool (child body (codes "supportsRestartFrame")) false)
granted-feature_table goto_targets_request body =
    or_false (get_bool (child body (codes "supportsGotoTargetsRequest")) false)
granted-feature_table step_in_targets_request body =
    or_false (get_bool (child body (codes "supportsStepInTargetsRequest")) false)
granted-feature_table completions_request body =
    or_false (get_bool (child body (codes "supportsCompletionsRequest")) false)
granted-feature_table modules_request body =
    or_false (get_bool (child body (codes "supportsModulesRequest")) false)
granted-feature_table restart_request body =
    or_false (get_bool (child body (codes "supportsRestartRequest")) false)
granted-feature_table exception_options body =
    or_false (get_bool (child body (codes "supportsExceptionOptions")) false)
granted-feature_table value_formatting_options body =
    or_false (get_bool (child body (codes "supportsValueFormattingOptions")) false)
granted-feature_table exception_info_request body =
    or_false (get_bool (child body (codes "supportsExceptionInfoRequest")) false)
granted-feature_table terminate_debuggee body =
    or_false (get_bool (child body (codes "supportTerminateDebuggee")) false)
granted-feature_table delayed_stack_trace_loading body =
    or_false (get_bool (child body (codes "supportsDelayedStackTraceLoading")) false)
granted-feature_table loaded_sources_request body =
    or_false (get_bool (child body (codes "supportsLoadedSourcesRequest")) false)
granted-feature_table progress_reporting body =
    or_false (get_bool (child body (codes "supportsProgressReporting")) false)
granted-feature_table run_in_terminal_request body =
    or_false (get_bool (child body (codes "supportsRunInTerminalRequest")) false)
granted-feature_table breakpoint_locations_request body =
    or_false (get_bool (child body (codes "supportsBreakpointLocationsRequest")) false)
granted-feature_table disassemble_request body =
    or_false (get_bool (child body (codes "supportsDisassembleRequest")) false)
granted-feature_table read_memory_request body =
    or_false (get_bool (child body (codes "supportsReadMemoryRequest")) false)
granted-feature_table goto_request body = refl

-- The table of the handshake grants a feature that no one granted before exactly where the body
-- declares its capability with the value true.
pub features_exact :
    (body : Json) (feature : Feature)
    → has_bit (enable_features feature_table body []) feature ≡ declares body (capability feature)
unfolding has_bit
features_exact body feature =
    has_bit-enable_features feature_table body [] feature
    ∙ or_false (granted feature_table body feature)
    ∙ granted-feature_table feature body
