-- ===== src/Protocol/RoundTrip.antt =====
-- The requests that the client writes, under `ObjGenerator::FromJSON`
-- (src/DebugAdapterProtocol/dap.cpp).
use debugger_dap.Common.{◌≡◌, refl, ap, true, false, Option, some, String, if◌then◌else◌}
use debugger_dap.Common.Int.{ℤ}
use debugger_dap.Text.{codes, text_eq}
use debugger_dap.Json.{
  Node, child, find_field, append_field, add, get_integer, get_string, get_bool,
}
use debugger_dap.Protocol.{
  not_found, request, kind_of, pool, is_registered, new_message, Message, from_json,
}
use debugger_dap.Protocol.Requests.{add_all, request_to, with_arguments}

-- The number of a request's tree.
abbrev pub seq_of : Node → ℤ
seq_of tree = get_integer (child (some tree) (codes "seq")) not_found

pub seq_of-request_to : (seq : ℤ) (command : String) → seq_of (request_to seq command) ≡ seq
unfolding request_to add_all add append_field child find_field get_integer text_eq
seq_of-request_to seq command = refl

pub seq_of-with_arguments :
    (seq : ℤ) (command : String) (arguments : Node)
    → seq_of (with_arguments seq command arguments) ≡ seq
unfolding with_arguments request_to add_all add append_field child find_field get_integer text_eq
seq_of-with_arguments seq command arguments = refl

-- The message that a request is.
abbrev pub request_message : ℤ → String → Message
request_message seq command = record {
  kind = request;
  name = codes command;
  seq = seq;
  request_seq = not_found;
  success = false;
}

-- Reading the tree of a request gives back its command and its number, for every command that is
-- registered as a request, whatever the arguments are.
pub from_json-with_arguments :
    (seq : ℤ) (command : String) (arguments : Node)
    → is_registered (codes command) (pool request) ≡ true
    → from_json (some (with_arguments seq command arguments)) ≡ some (request_message seq command)
unfolding from_json new_message kind_of with_arguments request_to add_all add append_field child
    find_field get_integer get_string get_bool text_eq
from_json-with_arguments seq command arguments e =
    ap (λ b. if b then some (request_message seq command) else Option.none) e
