-- ===== src/Protocol/Control.antt =====
-- The arguments of the requests that start, steer and end a session, and of the remaining ones of
-- src/DebugAdapterProtocol/dap.cpp.
use debugger_dap.Common.{Bool, false, List, [], ◌∷◌, ◌++◌, Option, none, some}
use debugger_dap.Common.Int.{ℤ}
use debugger_dap.Text.{Text, codes}
use debugger_dap.Json.{Node, bool, number, text, add, create_object, create_array}
use debugger_dap.Protocol.Requests.{
  FunctionBreakpoint, Source, add_all, add_items, source_to, function_breakpoint_to,
}

-- `EnvFormat`
pub data EnvFormat : Type 0 where
  dictionary env_list no_env : EnvFormat

-- `Environment`; the variables are in the order in which the map is read.
pub record Environment : Type 0 where
  pub format : EnvFormat
  pub vars : List (Text × Text)

unfoldable pub env_object : Node → List (Text × Text) → Node
unfolding add
env_object node [] = node
env_object node ((name, value) ∷ rest) = env_object (add node name (text value)) rest

unfoldable pub env_items : List (Text × Text) → List Node
env_items [] = []
env_items ((name, value) ∷ rest) = text (name ++ codes "=" ++ value) ∷ env_items rest

-- `Environment::To`
unfoldable pub env_to : EnvFormat → List (Text × Text) → Option Node
unfolding env_object add_items env_items
env_to dictionary vars = some (env_object create_object vars)
env_to env_list vars = some (add_items create_array (env_items vars))
env_to no_env vars = none

unfoldable pub texts : List Text → List Node
texts [] = []
texts (s ∷ rest) = text s ∷ texts rest

unfoldable pub with_env : Node → Option Node → Node
unfolding add
with_env node none = node
with_env node (some env) = add node (codes "env") env

-- `LaunchRequestArguments::To`
unfoldable pub launch_arguments_to : Text → List Text → Text → Environment → Node
unfolding add_all add_items texts with_env env_to
launch_arguments_to program args cwd env =
    with_env
      (add_all create_object (
        ("noDebug", bool false)
        ∷ ("program", text program)
        ∷ ("args", add_items create_array (texts args))
        ∷ ("cwd", text cwd)
        ∷ []))
      (env_to env.format env.vars)

-- `AttachRequestArguments::To`
unfoldable pub attach_arguments_to : ℤ → Node
unfolding add_all
attach_arguments_to pid = add_all create_object (("pid", number pid) ∷ [])

-- The arguments of `DisconnectRequest::To`
unfoldable pub disconnect_arguments_to : Bool → Bool → Node
unfolding add_all
disconnect_arguments_to restart terminate =
    add_all create_object (("restart", bool restart) ∷ ("terminateDebuggee", bool terminate) ∷ [])

-- `TerminateArguments::To`
unfoldable pub terminate_arguments_to : Bool → Node
unfolding add_all
terminate_arguments_to restart = add_all create_object (("restart", bool restart) ∷ [])

unfoldable pub function_breakpoint_nodes : List FunctionBreakpoint → List Node
unfolding function_breakpoint_to
function_breakpoint_nodes [] = []
function_breakpoint_nodes (b ∷ rest) = function_breakpoint_to b ∷ function_breakpoint_nodes rest

-- `SetFunctionBreakpointsArguments::To`
unfoldable pub set_function_breakpoints_arguments_to : List FunctionBreakpoint → Node
unfolding add_all add_items function_breakpoint_nodes
set_function_breakpoints_arguments_to breakpoints =
    add_all create_object
      (("breakpoints", add_items create_array (function_breakpoint_nodes breakpoints)) ∷ [])

-- `SetExceptionBreakpointsArguments::To`
unfoldable pub set_exception_breakpoints_arguments_to : List Text → Node
unfolding add_all add_items texts
set_exception_breakpoints_arguments_to filters =
    add_all create_object (("filters", add_items create_array (texts filters)) ∷ [])

-- `DisassembleArguments::To`
unfoldable pub disassemble_arguments_to : Text → ℤ → ℤ → ℤ → Bool → Node
unfolding add_all
disassemble_arguments_to reference offset instruction_offset instruction_count resolve_symbols =
    add_all create_object (
      ("memoryReference", text reference)
      ∷ ("offset", number offset)
      ∷ ("instructionOffset", number instruction_offset)
      ∷ ("instructionCount", number instruction_count)
      ∷ ("resolveSymbols", bool resolve_symbols)
      ∷ [])

-- `GotoArguments::To`
unfoldable pub goto_arguments_to : ℤ → ℤ → Node
unfolding add_all
goto_arguments_to thread_id target_id =
    add_all create_object (("threadId", number thread_id) ∷ ("targetId", number target_id) ∷ [])

-- `GotoTargetsArguments::To`
unfoldable pub goto_targets_arguments_to : Source → ℤ → ℤ → Node
unfolding add_all source_to
goto_targets_arguments_to source line column =
    add_all create_object
      (("source", source_to text source) ∷ ("line", number line) ∷ ("column", number column) ∷ [])
