-- ===== src/Protocol/Events.antt =====
-- The events that the plugin receives: their classes, `To` and `From` in
-- src/DebugAdapterProtocol/dap.cpp and dap.hpp.
pub mod Back
use debugger_dap.Common.{
  ℕ, Bool, true, false, List, [], ◌∷◌, ◌++◌, String, Option, none, some, ◌==◌, length,
  if◌then◌else◌,
}
use debugger_dap.Common.Int.{ℤ, eq_ℤ}
use debugger_dap.Text.{Text, codes, text_eq}
use debugger_dap.Json.{Node, Json, bool, number, add, child, create_object, get_integer, get_bool}
use debugger_dap.Json.Strings.{Encoding, string_to, string_from}
use debugger_dap.Protocol.{not_found}
use debugger_dap.Protocol.Requests.{Property, add_all}
use debugger_dap.Protocol.Bodies.{Breakpoint, breakpoint_to, breakpoint_from}

-- `Module`
pub record Module : Type 0 where
  pub id : Text
  pub name : Text
  pub path : Text
  pub version : Text
  pub symbol_status : Text
  pub symbol_file_path : Text
  pub date_time_stamp : Text
  pub address_range : Text
  pub is_optimized : Bool
  pub is_user_code : Bool

-- The classes, with their members.
pub data EventBody : Type 0 where
  initialized : EventBody
  -- reason, text, description, allThreadsStopped, threadId
  stopped : Text → Text → Text → Bool → ℤ → EventBody
  -- threadId, allThreadsContinued
  continued : ℤ → Bool → EventBody
  exited : ℤ → EventBody
  terminated : EventBody
  -- reason, threadId
  thread : Text → ℤ → EventBody
  -- category, output
  output : Text → Text → EventBody
  -- reason, breakpoint
  breakpoint : Text → Breakpoint → EventBody
  -- name, systemProcessId, isLocalProcess, startMethod, pointerSize
  process : Text → ℤ → Bool → Text → ℤ → EventBody
  -- reason, module
  modules : Text → Module → EventBody
  -- host, port
  waiting_for_server : Text → ℤ → EventBody

-- The name that the constructor of the class gives to `event`.
unfoldable pub event_name : EventBody → String
event_name initialized = "initialized"
event_name (stopped _ _ _ _ _) = "stopped"
event_name (continued _ _) = "continued"
event_name (exited _) = "exited"
event_name terminated = "terminated"
event_name (thread _ _) = "thread"
event_name (output _ _) = "output"
event_name (breakpoint _ _) = "breakpoint"
event_name (process _ _ _ _ _) = "process"
event_name (modules _ _) = "module"
event_name (waiting_for_server _ _) = ""

unfoldable pub with_body : Node → Option (List Property) → Node
unfolding add_all add
with_body head none = head
with_body head (some properties) = add head (codes "body") (add_all create_object properties)

-- The texts are converted: see Json/Strings.
module _ (encoding : Encoding) where
  -- `Module::To`
  unfoldable pub module_to : Module → Node
  unfolding add_all
  module_to m = add_all create_object (
      ("id", string_to encoding m.id)
      ∷ ("name", string_to encoding m.name)
      ∷ ("path", string_to encoding m.path)
      ∷ ("version", string_to encoding m.version)
      ∷ ("symbolStatus", string_to encoding m.symbol_status)
      ∷ ("symbolFilePath", string_to encoding m.symbol_file_path)
      ∷ ("dateTimeStamp", string_to encoding m.date_time_stamp)
      ∷ ("addressRange", string_to encoding m.address_range)
      ∷ ("isOptimized", bool m.is_optimized)
      ∷ ("isUserCode", bool m.is_user_code)
      ∷ [])

  -- `Event::To`, over `ProtocolMessage::To`
  unfoldable pub event_head : ℤ → String → Node
  unfolding add_all
  event_head seq name = add_all create_object (
      ("seq", number seq)
      ∷ ("type", string_to encoding (codes "event"))
      ∷ ("event", string_to encoding (codes name))
      ∷ [])

  -- The properties of the body, where the class writes one.
  unfoldable pub body_properties : EventBody → Option (List Property)
  unfolding breakpoint_to module_to
  body_properties initialized = none
  body_properties (stopped reason words description all_threads thread_id) = some (
      ("reason", string_to encoding reason)
      ∷ ("text", string_to encoding words)
      ∷ ("description", string_to encoding description)
      ∷ ("allThreadsStopped", bool all_threads)
      ∷ ("threadId", number thread_id)
      ∷ [])
  body_properties (continued thread_id all_threads) =
      some (("threadId", number thread_id) ∷ ("allThreadsContinued", bool all_threads) ∷ [])
  body_properties (exited exit_code) = some (("exitCode", number exit_code) ∷ [])
  body_properties terminated = none
  body_properties (thread reason thread_id) =
      some (("reason", string_to encoding reason) ∷ ("threadId", number thread_id) ∷ [])
  body_properties (output category words) =
      some (("category", string_to encoding category) ∷ ("output", string_to encoding words) ∷ [])
  body_properties (breakpoint reason b) =
      some (("reason", string_to encoding reason) ∷ ("breakpoint", breakpoint_to encoding b) ∷ [])
  body_properties (process name process_id is_local start_method pointer_size) = some (
      ("name", string_to encoding name)
      ∷ ("systemProcessId", number process_id)
      ∷ ("isLocalProcess", bool is_local)
      ∷ ("startMethod", string_to encoding start_method)
      ∷ ("pointerSize", number pointer_size)
      ∷ [])
  body_properties (modules reason m) =
      some (("reason", string_to encoding reason) ∷ ("module", module_to m) ∷ [])
  body_properties (waiting_for_server host port) =
      some (("host", string_to encoding host) ∷ ("port", number port) ∷ [])

  -- `To`
  unfoldable pub event_to : ℤ → EventBody → Node
  unfolding event_head with_body body_properties event_name
  event_to seq e = with_body (event_head seq (event_name e)) (body_properties e)

abbrev pub in_body : Json → String → Json
in_body json name = child (child json (codes "body")) (codes name)

-- `text`, or the whole event where that is empty.
unfoldable pub stopped_text : (Json → Text) → Json → Text → Text
stopped_text print json [] = print json
stopped_text print json (c ∷ words) = c ∷ words

-- `print` is cJSON's printer, and `decimal` what a wxString is given for an int.
module _ (encoding : Encoding) (print : Json → Text) (decimal : ℤ → Text) where
  -- `StoppedEvent::From`
  unfoldable pub stopped_from : Json → EventBody
  unfolding child get_integer get_bool stopped_text
  stopped_from json =
      stopped (string_from encoding (in_body json "reason") [])
        (stopped_text print json (string_from encoding (in_body json "text") []))
        (string_from encoding (in_body json "description") [])
        (get_bool (in_body json "allThreadsStopped") false)
        (get_integer (in_body json "threadId") not_found)

  -- `ContinuedEvent::From`
  unfoldable pub continued_from : Json → EventBody
  unfolding child get_integer get_bool
  continued_from json =
      continued (get_integer (in_body json "threadId") not_found)
        (get_bool (in_body json "allThreadsContinued") false)

  -- `ProcessEvent::From`
  unfoldable pub process_from : Json → EventBody
  unfolding child get_integer get_bool
  process_from json =
      process (string_from encoding (in_body json "name") [])
        (get_integer (in_body json "systemProcessId") not_found)
        (get_bool (in_body json "isLocalProcess") true)
        (string_from encoding (in_body json "startMethod") [])
        (get_integer (in_body json "pointerSize") not_found)

  -- The identifier of a module: a number other than -1, or a text.
  unfoldable pub module_id : Json → Text
  unfolding child get_integer
  module_id json =
      let number = get_integer (child json (codes "id")) not_found in
      if eq_ℤ number not_found
      then string_from encoding (child json (codes "id")) []
      else decimal number

  -- `Module::From`
  unfoldable pub module_from : Json → Module
  unfolding child get_bool module_id
  module_from json = record {
    id = module_id json;
    name = string_from encoding (child json (codes "name")) [];
    path = string_from encoding (child json (codes "path")) [];
    version = string_from encoding (child json (codes "version")) [];
    symbol_status = string_from encoding (child json (codes "symbolStatus")) [];
    symbol_file_path = string_from encoding (child json (codes "symbolFilePath")) [];
    date_time_stamp = string_from encoding (child json (codes "dateTimeStamp")) [];
    address_range = string_from encoding (child json (codes "addressRange")) [];
    is_optimized = get_bool (child json (codes "isOptimized")) false;
    is_user_code = get_bool (child json (codes "isUserCode")) false;
  }

  -- `ExitedEvent::From`
  unfoldable pub exited_from : Json → EventBody
  unfolding child get_integer
  exited_from json = exited (get_integer (in_body json "exitCode") not_found)

  -- `ThreadEvent::From`
  unfoldable pub thread_event_from : Json → EventBody
  unfolding child get_integer
  thread_event_from json =
      thread (string_from encoding (in_body json "reason") [])
        (get_integer (in_body json "threadId") not_found)

  -- `OutputEvent::From`
  unfoldable pub output_from : Json → EventBody
  unfolding child
  output_from json =
      output (string_from encoding (in_body json "category") [])
        (string_from encoding (in_body json "output") [])

  -- `BreakpointEvent::From`
  unfoldable pub breakpoint_event_from : Json → EventBody
  unfolding child breakpoint_from
  breakpoint_event_from json =
      breakpoint (string_from encoding (in_body json "reason") [])
        (breakpoint_from encoding (in_body json "breakpoint"))

  -- `ModuleEvent::From`
  unfoldable pub module_event_from : Json → EventBody
  unfolding child module_from
  module_event_from json =
      modules (string_from encoding (in_body json "reason") [])
        (module_from (in_body json "module"))

  -- `DebugpyWaitingForServerEvent::From`
  unfoldable pub waiting_for_server_from : Json → EventBody
  unfolding child get_integer
  waiting_for_server_from json =
      waiting_for_server (string_from encoding (in_body json "host") [])
        (get_integer (in_body json "port") not_found)

  -- `New` with the pool of the events, and `From` of the class that is registered under the name
  unfoldable pub body_from : Text → Json → Option EventBody
  unfolding stopped_from continued_from exited_from thread_event_from output_from
      breakpoint_event_from process_from module_event_from waiting_for_server_from
  body_from name json =
      if text_eq name (codes "initialized")
      then some initialized
      else if text_eq name (codes "stopped")
      then some (stopped_from json)
      else if text_eq name (codes "continued")
      then some (continued_from json)
      else if text_eq name (codes "exited")
      then some (exited_from json)
      else if text_eq name (codes "terminated")
      then some terminated
      else if text_eq name (codes "thread")
      then some (thread_event_from json)
      else if text_eq name (codes "output")
      then some (output_from json)
      else if text_eq name (codes "breakpoint")
      then some (breakpoint_event_from json)
      else if text_eq name (codes "process")
      then some (process_from json)
      else if text_eq name (codes "module")
      then some (module_event_from json)
      else if text_eq name (codes "")
      then some (waiting_for_server_from json)
      else none

  -- The event that `FromJSON` makes; `none` where it makes none.
  unfoldable pub event_from : Json → Option EventBody
  unfolding body_from child
  event_from json =
      if text_eq (string_from encoding (child json (codes "type")) []) (codes "event")
      then body_from (string_from encoding (child json (codes "event")) []) json
      else none
