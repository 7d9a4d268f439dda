-- ===== src/Protocol/Requests.antt =====
-- The requests of src/DebugAdapterProtocol/dap.cpp as trees: their `To` methods.
use debugger_dap.Common.{suc, Bool, true, false, List, [], ◌∷◌, String, if◌then◌else◌}
use debugger_dap.Common.Int.{ℤ, pos}
use debugger_dap.Text.{Text, codes}
use debugger_dap.Json.{Node, bool, number, text, add, create_object, create_array}

-- A line of an `To` method: a name and the node that is added under it.
abbrev pub Property : Type 0
Property = String × Node

unfoldable pub add_all : Node → List Property → Node
unfolding add
add_all node [] = node
add_all node ((name, value) ∷ rest) = add_all (add node (codes name) value) rest

unfoldable pub add_items : Node → List Node → Node
unfolding add
add_items node [] = node
add_items node (value ∷ rest) = add_items (add node [] value) rest

abbrev pub is_positive : ℤ → Bool
is_positive (pos (suc n)) = true
is_positive _ = false

-- `Request::To`, over `ProtocolMessage::To`.
unfoldable pub request_to : ℤ → String → Node
unfolding add_all
request_to seq command = add_all create_object (
    ("seq", number seq) ∷ ("type", text (codes "request")) ∷ ("command", text (codes command)) ∷ [])

-- The `To` of a request with arguments.
unfoldable pub with_arguments : ℤ → String → Node → Node
unfolding request_to add_all
with_arguments seq command arguments =
    add_all (request_to seq command) (("arguments", arguments) ∷ [])

-- `SourceBreakpoint`
pub record SourceBreakpoint : Type 0 where
  pub line : ℤ
  pub condition : Text

-- `FunctionBreakpoint`
pub record FunctionBreakpoint : Type 0 where
  pub name : Text
  pub condition : Text

-- `Source`
pub record Source : Type 0 where
  pub name : Text
  pub path : Text
  pub source_reference : ℤ

unfoldable pub path_properties : (Text → Node) → Text → List Property
path_properties string [] = []
path_properties string (c ∷ path) = ("path", string (c ∷ path)) ∷ []

unfoldable pub reference_properties : String → ℤ → List Property
reference_properties name reference =
    if is_positive reference then (name, number reference) ∷ [] else []

-- `Source::To`, with the node of a text.
unfoldable pub source_to : (Text → Node) → Source → Node
unfolding path_properties reference_properties add_all
source_to string source =
    add_all
      (add_all (add_all create_object (("name", string source.name) ∷ []))
        (path_properties string source.path))
      (reference_properties "sourceReference" source.source_reference)

unfoldable pub source_breakpoint_to : SourceBreakpoint → Node
unfolding add_all
source_breakpoint_to b =
    add_all create_object (("line", number b.line) ∷ ("condition", text b.condition) ∷ [])

unfoldable pub function_breakpoint_to : FunctionBreakpoint → Node
unfolding add_all
function_breakpoint_to b =
    add_all create_object (("name", text b.name) ∷ ("condition", text b.condition) ∷ [])

-- `NextArguments::To`
unfoldable pub next_arguments_to : ℤ → Text → Bool → Node
unfolding add_all
next_arguments_to thread_id granularity single_thread = add_all create_object (
    ("threadId", number thread_id)
    ∷ ("granularity", text granularity)
    ∷ ("singleThread", bool single_thread)
    ∷ [])

-- `StepArguments::To`
unfoldable pub step_arguments_to : ℤ → Bool → Text → Node
unfolding add_all
step_arguments_to thread_id single_thread granularity = add_all create_object (
    ("threadId", number thread_id)
    ∷ ("singleThread", bool single_thread)
    ∷ ("granularity", text granularity)
    ∷ [])

-- `ContinueArguments::To`
unfoldable pub continue_arguments_to : ℤ → Bool → Node
unfolding add_all
continue_arguments_to thread_id single_thread =
    add_all create_object
      (("threadId", number thread_id) ∷ ("singleThread", bool single_thread) ∷ [])

-- `ScopesArguments::To`
unfoldable pub scopes_arguments_to : ℤ → Node
unfolding add_all
scopes_arguments_to frame_id = add_all create_object (("frameId", number frame_id) ∷ [])

-- `StackTraceArguments::To`: `startFrame` and `levels` are not written.
unfoldable pub stack_trace_arguments_to : ℤ → Node
unfolding add_all
stack_trace_arguments_to thread_id = add_all create_object (("threadId", number thread_id) ∷ [])

-- `ValueFormat::To`
unfoldable pub value_format_to : Bool → Node
unfolding add_all
value_format_to hex = add_all create_object (("hex", bool hex) ∷ [])

-- `VariablesArguments::To`: `filter` and `start` are not written.
unfoldable pub variables_arguments_to : ℤ → ℤ → Bool → Node
unfolding add_all value_format_to
variables_arguments_to reference count hex = add_all create_object (
    ("variablesReference", number reference)
    ∷ ("count", number count)
    ∷ ("format", value_format_to hex)
    ∷ [])

-- `PauseArguments::To`
unfoldable pub pause_arguments_to : ℤ → Node
unfolding add_all
pause_arguments_to thread_id = add_all create_object (("threadId", number thread_id) ∷ [])

-- `SourceArguments::To`
unfoldable pub source_arguments_to : Source → ℤ → Node
unfolding add_all reference_properties
source_arguments_to source reference =
    add_all (add_all create_object (("source", source_to text source) ∷ []))
      (reference_properties "sourceReference" reference)

-- `EvaluateArguments::To`
unfoldable pub evaluate_arguments_to : Text → ℤ → Text → Bool → Node
unfolding add_all value_format_to reference_properties
evaluate_arguments_to expression frame_id context hex =
    add_all
      (add_all (add_all create_object (("expression", text expression) ∷ []))
        (reference_properties "frameId" frame_id))
      (("context", text context) ∷ ("format", value_format_to hex) ∷ [])

breakpoint_nodes : List SourceBreakpoint → List Node
breakpoint_nodes [] = []
breakpoint_nodes (b ∷ rest) = source_breakpoint_to b ∷ breakpoint_nodes rest

-- `SetBreakpointsArguments::To`
unfoldable pub set_breakpoints_arguments_to : Source → List SourceBreakpoint → Node
unfolding add_all add_items breakpoint_nodes
set_breakpoints_arguments_to source breakpoints = add_all create_object (
    ("source", source_to text source)
    ∷ ("breakpoints", add_items create_array (breakpoint_nodes breakpoints))
    ∷ [])

-- `BreakpointLocationsArguments::To`; the columns and the end line have the default -1.
unfoldable pub breakpoint_locations_arguments_to : Source → ℤ → ℤ → ℤ → ℤ → Node
unfolding add_all
breakpoint_locations_arguments_to source line column end_line end_column = add_all create_object (
    ("source", source_to text source)
    ∷ ("line", number line)
    ∷ ("column", number column)
    ∷ ("endLine", number end_line)
    ∷ ("endColumn", number end_column)
    ∷ [])

-- `ReadMemoryArguments::To`
unfoldable pub read_memory_arguments_to : Text → ℤ → ℤ → Node
unfolding add_all
read_memory_arguments_to reference offset count =
    add_all create_object (
      ("memoryReference", text reference)
      ∷ ("offset", number offset)
      ∷ ("count", number count)
      ∷ [])
