-- ===== src/Protocol.antt =====
-- `dap::ObjGenerator` and the base classes of the messages
-- (src/DebugAdapterProtocol/dap.cpp, dap.hpp).
pub mod Requests
pub mod Control
pub mod RoundTrip
pub mod Bodies
pub mod Events
use debugger_dap.Common.{
  ℕ, Bool, true, false, ◌||◌, List, [], ◌∷◌, Option, none, some, map, String, if◌then◌else◌,
}
use debugger_dap.Common.Int.{ℤ, pos, negsuc}
use debugger_dap.Text.{Text, codes, text_eq}
use debugger_dap.Json.{Json, child, get_string, get_integer, get_bool, is_ok}

-- wxNOT_FOUND, and the default of `GetInteger` and `GetNumber`
abbrev pub not_found : ℤ
not_found = negsuc 0

-- The three pools of the generator.
pub data Kind : Type 0 where
  request response event : Kind

-- The names that `dap::Initialize` registers in each pool: those of the listed classes and of
-- their base classes.
abbrev pub pool : Kind → List String
pool request =
    "cancel" ∷ "initialize" ∷ "breakpointLocations" ∷ "configurationDone" ∷ "launch" ∷ "disconnect"
    ∷ "terminate" ∷ "setBreakpoints" ∷ "setExceptionBreakpoints" ∷ "setFunctionBreakpoints"
    ∷ "continue" ∷ "next" ∷ "step" ∷ "stepIn" ∷ "stepOut" ∷ "threads" ∷ "scopes" ∷ "stackTrace"
    ∷ "pause" ∷ "runInTerminal" ∷ "source" ∷ "evaluate" ∷ "attach" ∷ "disassemble" ∷ "goto"
    ∷ "gotoTargets" ∷ "readMemory" ∷ []
pool event =
    "initialized" ∷ "stopped" ∷ "continued" ∷ "exited" ∷ "terminated" ∷ "thread" ∷ "output"
    ∷ "breakpoint" ∷ "process" ∷ "module" ∷ "" ∷ []
pool response =
    "initialize" ∷ "cancel" ∷ "" ∷ "configurationDone" ∷ "launch" ∷ "disconnect" ∷ "terminate"
    ∷ "breakpointLocations" ∷ "setBreakpoints" ∷ "setExceptionBreakpoints"
    ∷ "setFunctionBreakpoints" ∷ "continue" ∷ "next" ∷ "stepIn" ∷ "stepOut" ∷ "threads" ∷ "scopes"
    ∷ "stackTrace" ∷ "variables" ∷ "pause" ∷ "runInTerminal" ∷ "source" ∷ "evaluate" ∷ "attach"
    ∷ "disassemble" ∷ "goto" ∷ "gotoTargets" ∷ "readMemory" ∷ []

-- `pool.find(name) != pool.end()`
unfoldable pub is_registered : Text → List String → Bool
is_registered name [] = false
is_registered name (entry ∷ rest) = text_eq (codes entry) name || is_registered name rest

-- The `if` chain of `ObjGenerator::New` on the type.
unfoldable pub kind_of : Text → Option Kind
kind_of type =
    if text_eq type (codes "response")
    then some response
    else if text_eq type (codes "request")
    then some request
    else if text_eq type (codes "event")
    then some event
    else none

-- What the dispatch of messages reads of a `ProtocolMessage`.
pub record Message : Type 0 where
  pub kind : Kind
  -- `event` or `command`
  pub name : Text
  pub seq : ℤ
  -- of a response
  pub request_seq : ℤ
  pub success : Bool

unfoldable pub new_message : Option Kind → Text → Json → Option Message
new_message none name json = none
new_message (some kind) name json =
    if is_registered name (pool kind)
    then some (record {
      kind = kind;
      name = name;
      seq = get_integer (child json (codes "seq")) not_found;
      request_seq = get_integer (child json (codes "request_seq")) not_found;
      success = get_bool (child json (codes "success")) false;
    })
    else none

-- `ObjGenerator::FromJSON`
unfoldable pub from_json : Json → Option Message
unfolding new_message kind_of
from_json json =
    let type = get_string (child json (codes "type")) [] in
    let name =
      if text_eq type (codes "event")
      then get_string (child json (codes "event")) []
      else get_string (child json (codes "command")) [] in
    if is_ok json then new_message (kind_of type) name json else none
