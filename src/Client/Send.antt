-- ===== src/Client/Send.antt =====
-- What the client does to the outside: `SendRequest`, `OnConnectionError`, the events and callbacks.
use debugger_dap.Common.{ℕ, Bool, List, [], ◌∷◌, ◌++◌, none, if◌then◌else◌}
use debugger_dap.Common.Int.{ℤ}
use debugger_dap.Text.{Text, codes}
use debugger_dap.Json.{Node, Json}
use debugger_dap.Rpc.{frame}
use debugger_dap.Client.State.{Client, Context, reset}

-- What the client takes from the libraries that it is built on.
pub record Library : Type 0 where
  -- `cJSON_PrintUnformatted`
  pub print : Node → Text
  -- `wxFileName(path).GetFullName()` and `GetFullPath()`
  pub full_name : Text → Text
  pub full_path : Text → Text
  -- `str.BeforeFirst('\n')`
  pub before_newline : Text → Text
  -- `wxString::Format("0x%llx", address)`
  pub hex_address : ℕ → Text

-- The wxEVT_DAP_… types that the client fires.
pub data EventType : Type 0 where
  lost_connection initialize_response stopped_event process_event exited_event : EventType
  terminated_event initialized_event output_event breakpoint_event continued_event : EventType
  module_event stacktrace_response scopes_response variables_response : EventType
  breakpoint_locations_response set_function_breakpoint_response : EventType
  set_exception_breakpoint_response set_source_breakpoint_response : EventType
  configuration_done_response launch_response threads_response disassemble_response : EventType
  read_memory_response gototargets_response attach_response run_in_terminal_request : EventType

-- The extension fields that the client sets on a response before it fires the event; `plain` where
-- they keep their defaults.
pub data Detail : Type 0 where
  plain : Detail
  ref_id : ℤ → Detail
  ref_context : ℤ → Context → Detail
  filepath : Text → Detail
  origin_source : Text → Detail
  json_dump : Text → Detail

pub data Effect : Type 0 where
  -- the bytes given to the transport
  sent : Text → Effect
  -- wxEVT_DAP_LOG_EVENT
  logged : Text → Effect
  -- an event, the message that it carries, and its string (an error message or nothing)
  fired : EventType → Json → Detail → Text → Effect
  -- a call of an evaluate_cb
  evaluated : ℕ → Bool → Text → Text → ℤ → Effect
  -- a call of a source_loaded_cb
  loaded : ℕ → Bool → Text → Text → Effect

-- A member function: the new state and what it did, in order.
abbrev pub Action : Type 0
Action = Client → Client × List Effect

-- `OnConnectionError`
unfoldable pub on_connection_error : Action
unfolding reset
on_connection_error c = (reset c, fired lost_connection none plain [] ∷ [])

module _ (library : Library) where
  -- `SendRequest`. `JsonRPC::Send` throws if there is no transport, and `SocketTransport::Send`
  -- never does.
  unfoldable pub send_request : Node → Action
  unfolding on_connection_error
  send_request request c =
      if c.transport
      then (
        c,
        sent (frame (library.print request))
            ∷ (if c.wants_log then logged (codes "--> " ++ library.print request) ∷ [] else []),
      )
      else on_connection_error c

  -- `SendResponse`
  unfoldable pub send_response : Node → Action
  unfolding send_request
  send_response response c = send_request response c
