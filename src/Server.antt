-- ===== src/Server.antt =====
-- The server's side of the connection: Check of src/DebugAdapterProtocol/ServerProtocol.cpp.
use debugger_dap.Common.{List, [], ◌∷◌, ◌++◌, Bool, Option, none, some, if◌then◌else◌}
use debugger_dap.Text.{Text}
use debugger_dap.Json.{Node}
use debugger_dap.Rpc.{Host, Run, quiet, process_buffer, after_chunk}
use debugger_dap.Protocol.{Message, from_json}
pub mod Stream

-- What was read, if the socket had something and reading it succeeded.
abbrev pub read_text : Option Text → Text
read_text none = []
read_text (some content) = content

-- The messages for the handler, of the trees that are messages.
unfoldable pub handed : List Node → List Message
unfolding from_json
handed [] = []
handed (node ∷ rest) = hand (from_json (some node)) (handed rest)
  where
    hand : Option Message → List Message → List Message
    hand none messages = messages
    hand (some message) messages = message ∷ messages

module _ (host : Host) (parse : Text → Option Node) where
  -- `Check`: what it appends to the buffer and the trees that the loop hands out; nothing happens
  -- without a handler.
  unfoldable pub check : Bool → Option Text → Text → Run Node
  unfolding process_buffer
  check has_handler content buffer =
      if has_handler
      then process_buffer host parse (buffer ++ read_text content)
      else record { messages = []; buffer = buffer; ending = quiet }

  -- Calls of `Check`, up to a fault.
  unfoldable pub checks : Bool → Text → List (Option Text) → Run Node
  unfolding check after_chunk
  checks has_handler buffer [] = record { messages = []; buffer = buffer; ending = quiet }
  checks has_handler buffer (content ∷ rest) =
      after_chunk host parse (check has_handler content buffer)
        (λ left. checks has_handler left rest)
