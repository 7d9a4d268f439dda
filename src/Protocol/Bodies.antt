-- ===== src/Protocol/Bodies.antt =====
-- The bodies of responses that the plugin reads: the `To` and `From` methods of
-- src/DebugAdapterProtocol/dap.cpp. The members have their defaults where `From` begins.
pub mod Back
pub mod Items
pub mod RoundTrip
use debugger_dap.Common.{ℕ, Bool, true, false, List, [], ◌∷◌, ◌++◌, String, map, if◌then◌else◌}
use debugger_dap.Common.Int.{ℤ, pos}
use debugger_dap.Text.{Text, codes}
use debugger_dap.Json.{
  Node, Json, bool, number, add, child, create_object, create_array, get_integer, get_bool,
  read_items,
}
use debugger_dap.Json.Strings.{Encoding, string_to, string_from, strings_from}
use debugger_dap.Protocol.{not_found}
use debugger_dap.Protocol.Requests.{add_all, add_items, Source, source_to}

-- `json["name"]`
abbrev at : Json → String → Json
at json name = child json (codes name)

-- `Response`, over `ProtocolMessage`
pub record Response : Type 0 where
  pub seq : ℤ
  pub type : Text
  pub request_seq : ℤ
  pub success : Bool
  pub message : Text
  pub command : Text

-- `Thread`
pub record Thread : Type 0 where
  pub id : ℤ
  pub name : Text

-- `StackFrame`
pub record StackFrame : Type 0 where
  pub id : ℤ
  pub name : Text
  pub source : Source
  pub line : ℤ
  pub instruction_pointer_reference : Text

-- `Scope`
pub record Scope : Type 0 where
  pub name : Text
  pub variables_reference : ℤ
  pub expensive : Bool

-- `VariablePresentationHint`
pub record PresentationHint : Type 0 where
  pub kind : Text
  pub visibility : Text
  pub attributes : List Text

-- `Variable`
pub record Variable : Type 0 where
  pub name : Text
  pub value : Text
  pub type : Text
  pub variables_reference : ℤ
  pub presentation_hint : PresentationHint

-- `Breakpoint`
pub record Breakpoint : Type 0 where
  pub id : ℤ
  pub verified : Bool
  pub message : Text
  pub source : Source
  pub line : ℤ
  pub column : ℤ
  pub end_line : ℤ
  pub end_column : ℤ

-- The texts are converted: see Json/Strings.
module _ (encoding : Encoding) where
  unfoldable pub response_to : Response → Node
  unfolding add_all
  response_to r = add_all create_object (
      ("seq", number r.seq)
      ∷ ("type", string_to encoding r.type)
      ∷ ("request_seq", number r.request_seq)
      ∷ ("success", bool r.success)
      ∷ ("message", string_to encoding r.message)
      ∷ ("command", string_to encoding r.command)
      ∷ [])

  unfoldable pub response_from : Json → Response
  unfolding child get_integer get_bool
  response_from json = record {
    seq = get_integer (at json "seq") not_found;
    type = string_from encoding (at json "type") [];
    request_seq = get_integer (at json "request_seq") not_found;
    success = get_bool (at json "success") false;
    message = string_from encoding (at json "message") [];
    command = string_from encoding (at json "command") [];
  }

  -- `Source::From`
  unfoldable pub source_from : Json → Source
  unfolding child get_integer
  source_from json = record {
    name = string_from encoding (at json "name") [];
    path = string_from encoding (at json "path") [];
    source_reference = get_integer (at json "sourceReference") (pos 0);
  }

  unfoldable pub thread_to : Thread → Node
  unfolding add_all
  thread_to t =
      add_all create_object (("id", number t.id) ∷ ("name", string_to encoding t.name) ∷ [])

  unfoldable pub thread_from : Json → Thread
  unfolding child get_integer
  thread_from json = record {
    id = get_integer (at json "id") not_found;
    name = string_from encoding (at json "name") [];
  }

  unfoldable pub stack_frame_to : StackFrame → Node
  unfolding add_all source_to
  stack_frame_to f = add_all create_object (
      ("name", string_to encoding f.name)
      ∷ ("id", number f.id)
      ∷ ("line", number f.line)
      ∷ ("instructionPointerReference", string_to encoding f.instruction_pointer_reference)
      ∷ ("source", source_to (string_to encoding) f.source)
      ∷ [])

  unfoldable pub stack_frame_from : Json → StackFrame
  unfolding child get_integer source_from
  stack_frame_from json = record {
    id = get_integer (at json "id") not_found;
    name = string_from encoding (at json "name") [];
    source = source_from (at json "source");
    line = get_integer (at json "line") not_found;
    instruction_pointer_reference = string_from encoding (at json "instructionPointerReference") [];
  }

  unfoldable pub scope_to : Scope → Node
  unfolding add_all
  scope_to s = add_all create_object (
      ("name", string_to encoding s.name)
      ∷ ("variablesReference", number s.variables_reference)
      ∷ ("expensive", bool s.expensive)
      ∷ [])

  unfoldable pub scope_from : Json → Scope
  unfolding child get_integer get_bool
  scope_from json = record {
    name = string_from encoding (at json "name") [];
    variables_reference = get_integer (at json "variablesReference") not_found;
    expensive = get_bool (at json "expensive") false;
  }

  -- `Add` with a vector of strings
  unfoldable pub strings_to : List Text → Node
  unfolding add_items
  strings_to strings = add_items create_array (map (string_to encoding) strings)

  unfoldable pub hint_to : PresentationHint → Node
  unfolding add_all strings_to
  hint_to h = add_all create_object (
      ("kind", string_to encoding h.kind)
      ∷ ("visibility", string_to encoding h.visibility)
      ∷ ("attributes", strings_to h.attributes)
      ∷ [])

  unfoldable pub hint_from : Json → PresentationHint
  unfolding child strings_from
  hint_from json = record {
    kind = string_from encoding (at json "kind") [];
    visibility = string_from encoding (at json "visibility") [];
    attributes = strings_from encoding (at json "attributes");
  }

  unfoldable pub variable_to : Variable → Node
  unfolding add_all hint_to
  variable_to v = add_all create_object (
      ("name", string_to encoding v.name)
      ∷ ("value", string_to encoding v.value)
      ∷ ("type", string_to encoding v.type)
      ∷ ("variablesReference", number v.variables_reference)
      ∷ ("presentationHint", hint_to v.presentation_hint)
      ∷ [])

  unfoldable pub variable_from : Json → Variable
  unfolding child get_integer hint_from
  variable_from json = record {
    name = string_from encoding (at json "name") [];
    value = string_from encoding (at json "value") [];
    type = string_from encoding (at json "type") [];
    variables_reference = get_integer (at json "variablesReference") not_found;
    presentation_hint = hint_from (at json "presentationHint");
  }

  unfoldable pub breakpoint_to : Breakpoint → Node
  unfolding add_all source_to
  breakpoint_to b = add_all create_object (
      ("id", number b.id)
      ∷ ("verified", bool b.verified)
      ∷ ("message", string_to encoding b.message)
      ∷ ("line", number b.line)
      ∷ ("column", number b.column)
      ∷ ("endLine", number b.end_line)
      ∷ ("endColumn", number b.end_column)
      ∷ ("source", source_to (string_to encoding) b.source)
      ∷ [])

  unfoldable pub breakpoint_from : Json → Breakpoint
  unfolding child get_integer get_bool source_from
  breakpoint_from json = record {
    id = get_integer (at json "id") not_found;
    verified = get_bool (at json "verified") false;
    message = string_from encoding (at json "message") [];
    source = source_from (at json "source");
    line = get_integer (at json "line") not_found;
    column = get_integer (at json "column") not_found;
    end_line = get_integer (at json "endLine") not_found;
    end_column = get_integer (at json "endColumn") not_found;
  }

  -- A response whose body is an object with one array.
  unfoldable pub list_response_to : String → Response → List Node → Node
  unfolding response_to add add_items
  list_response_to name r nodes =
      add (response_to r) (codes "body")
        (add create_object (codes name) (add_items create_array nodes))

  -- The array of such a body, read item by item.
  unfoldable pub list_response_from : String → Json → List Json
  unfolding child read_items
  list_response_from name json = read_items (at (at json "body") name)

  unfoldable pub threads_response_to : Response → List Thread → Node
  unfolding list_response_to thread_to
  threads_response_to r threads = list_response_to "threads" r (map thread_to threads)

  unfoldable pub threads_response_from : Json → Response × List Thread
  unfolding response_from list_response_from thread_from
  threads_response_from json =
      (response_from json, map thread_from (list_response_from "threads" json))

  unfoldable pub stack_trace_response_to : Response → List StackFrame → Node
  unfolding list_response_to stack_frame_to
  stack_trace_response_to r frames = list_response_to "stackFrames" r (map stack_frame_to frames)

  unfoldable pub stack_trace_response_from : Json → Response × List StackFrame
  unfolding response_from list_response_from stack_frame_from
  stack_trace_response_from json =
      (response_from json, map stack_frame_from (list_response_from "stackFrames" json))

  unfoldable pub scopes_response_to : Response → List Scope → Node
  unfolding list_response_to scope_to
  scopes_response_to r scopes = list_response_to "scopes" r (map scope_to scopes)

  -- The scopes that the message holds already stay in front.
  unfoldable pub scopes_response_from : List Scope → Json → Response × List Scope
  unfolding response_from list_response_from scope_from
  scopes_response_from held json =
      (response_from json, held ++ map scope_from (list_response_from "scopes" json))

  unfoldable pub variables_response_to : Response → List Variable → Node
  unfolding list_response_to variable_to
  variables_response_to r variables = list_response_to "variables" r (map variable_to variables)

  -- The variables that the message holds already stay in front.
  unfoldable pub variables_response_from : List Variable → Json → Response × List Variable
  unfolding response_from list_response_from variable_from
  variables_response_from held json =
      (response_from json, held ++ map variable_from (list_response_from "variables" json))

  unfoldable pub set_breakpoints_response_to : Response → List Breakpoint → Node
  unfolding list_response_to breakpoint_to
  set_breakpoints_response_to r breakpoints =
      list_response_to "breakpoints" r (map breakpoint_to breakpoints)

  unfoldable pub set_breakpoints_response_from : Json → Response × List Breakpoint
  unfolding response_from list_response_from breakpoint_from
  set_breakpoints_response_from json =
      (response_from json, map breakpoint_from (list_response_from "breakpoints" json))
