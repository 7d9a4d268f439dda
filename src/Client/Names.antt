-- ===== src/Client/Names.antt =====
-- The names that `OnMessage` compares with, and the maps that it looks up
-- (src/DebugAdapterProtocol/Client.cpp).
use debugger_dap.Common.{ℕ, false, List, [], ◌∷◌, Option, none, some, String, if◌then◌else◌}
use debugger_dap.Common.Int.{ℤ, pos, eq_ℤ}
use debugger_dap.Text.{Text, codes, text_eq}
use debugger_dap.Json.{Json, child, get_bool}
use debugger_dap.Client.State.{
  Feature, configuration_done_request, function_breakpoints, conditional_breakpoints,
  hit_conditional_breakpoints, evaluate_for_hovers, step_back, set_variable, restart_frame,
  goto_targets_request, step_in_targets_request, completions_request, modules_request,
  restart_request, exception_options, value_formatting_options, exception_info_request,
  terminate_debuggee, delayed_stack_trace_loading, loaded_sources_request, progress_reporting,
  run_in_terminal_request, breakpoint_locations_request, disassemble_request, read_memory_request,
}

-- The lines ENABLE_FEATURE of the handshake: a feature and the name of its capability.
abbrev pub feature_table : List (Feature × String)
feature_table =
    (configuration_done_request, "supportsConfigurationDoneRequest")
    ∷ (function_breakpoints, "supportsFunctionBreakpoints")
    ∷ (conditional_breakpoints, "supportsConditionalBreakpoints")
    ∷ (hit_conditional_breakpoints, "supportsHitConditionalBreakpoints")
    ∷ (evaluate_for_hovers, "supportsEvaluateForHovers")
    ∷ (step_back, "supportsStepBack")
    ∷ (set_variable, "supportsSetVariable")
    ∷ (restart_frame, "supportsRestartFrame")
    ∷ (goto_targets_request, "supportsGotoTargetsRequest")
    ∷ (step_in_targets_request, "supportsStepInTargetsRequest")
    ∷ (completions_request, "supportsCompletionsRequest")
    ∷ (modules_request, "supportsModulesRequest")
    ∷ (restart_request, "supportsRestartRequest")
    ∷ (exception_options, "supportsExceptionOptions")
    ∷ (value_formatting_options, "supportsValueFormattingOptions")
    ∷ (exception_info_request, "supportsExceptionInfoRequest")
    ∷ (terminate_debuggee, "supportTerminateDebuggee")
    ∷ (delayed_stack_trace_loading, "supportsDelayedStackTraceLoading")
    ∷ (loaded_sources_request, "supportsLoadedSourcesRequest")
    ∷ (progress_reporting, "supportsProgressReporting")
    ∷ (run_in_terminal_request, "supportsRunInTerminalRequest")
    ∷ (breakpoint_locations_request, "supportsBreakpointLocationsRequest")
    ∷ (disassemble_request, "supportsDisassembleRequest")
    ∷ (read_memory_request, "supportsReadMemoryRequest")
    ∷ []

unfoldable pub enable_features : List (Feature × String) → Json → List Feature → List Feature
enable_features [] body features = features
enable_features ((feature, name) ∷ rest) body features =
    enable_features rest body
      (if get_bool (child body (codes name)) false then feature ∷ features else features)

-- The events that `OnMessage` tells apart.
pub data EventName : Type 0 where
  stopped process exited terminated initialized output breakpoint continued module_loaded :
      EventName
  other_event : EventName

unfoldable pub event_name : Text → EventName
event_name name =
    if text_eq name (codes "stopped")
    then stopped
    else if text_eq name (codes "process")
    then process
    else if text_eq name (codes "exited")
    then exited
    else if text_eq name (codes "terminated")
    then terminated
    else if text_eq name (codes "initialized")
    then initialized
    else if text_eq name (codes "output")
    then output
    else if text_eq name (codes "breakpoint")
    then breakpoint
    else if text_eq name (codes "continued")
    then continued
    else if text_eq name (codes "module")
    then module_loaded
    else other_event

-- The responses that it tells apart; `resumed` are stepIn, stepOut, next and continue.
pub data ResponseName : Type 0 where
  stack_trace scopes variables_list resumed breakpoint_locations : ResponseName
  set_function_breakpoints set_exception_breakpoints set_breakpoints : ResponseName
  configuration_done launch threads disassemble read_memory source evaluate goto_targets :
      ResponseName
  attach unnamed other_response : ResponseName

unfoldable pub response_name : Text → ResponseName
response_name name =
    if text_eq name (codes "stackTrace")
    then stack_trace
    else if text_eq name (codes "scopes")
    then scopes
    else if text_eq name (codes "variables")
    then variables_list
    else if text_eq name (codes "stepIn")
    then resumed
    else if text_eq name (codes "stepOut")
    then resumed
    else if text_eq name (codes "next")
    then resumed
    else if text_eq name (codes "continue")
    then resumed
    else if text_eq name (codes "breakpointLocations")
    then breakpoint_locations
    else if text_eq name (codes "setFunctionBreakpoints")
    then set_function_breakpoints
    else if text_eq name (codes "setExceptionBreakpoints")
    then set_exception_breakpoints
    else if text_eq name (codes "setBreakpoints")
    then set_breakpoints
    else if text_eq name (codes "configurationDone")
    then configuration_done
    else if text_eq name (codes "launch")
    then launch
    else if text_eq name (codes "threads")
    then threads
    else if text_eq name (codes "disassemble")
    then disassemble
    else if text_eq name (codes "readMemory")
    then read_memory
    else if text_eq name (codes "source")
    then source
    else if text_eq name (codes "evaluate")
    then evaluate
    else if text_eq name (codes "gotoTargets")
    then goto_targets
    else if text_eq name (codes "attach")
    then attach
    else if text_eq name []
    then unnamed
    else other_response

-- `m_requestIdToFilepath`: the first entry under a request's number, and the map without it.
unfoldable pub find_file : List (ℕ × Text) → ℤ → Option Text
find_file [] id = none
find_file ((key, path) ∷ rest) id = if eq_ℤ (pos key) id then some path else find_file rest id

unfoldable pub erase_file : List (ℕ × Text) → ℤ → List (ℕ × Text)
erase_file [] id = []
erase_file ((key, path) ∷ rest) id =
    if eq_ℤ (pos key) id then erase_file rest id else (key, path) ∷ erase_file rest id
