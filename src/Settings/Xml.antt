-- ===== src/Settings/Xml.antt =====
-- Writing and reading children of an XML node: AddChildNode and ReadChildNode of
-- src/DebugAdapterClient/definitions.cpp, over the calls of tinyxml2 and of wxWidgets. An `int`
-- has 32 bits, a `long` 64.
use mathlib.Core.Option
use debugger_dap.Common.{
  ℕ, Bool, true, false, List, [], ◌∷◌, String, Option, none, some, if◌then◌else◌,
}
use debugger_dap.Common.Int.{to_int, ℤ}
use debugger_dap.Text.{Text, codes}

-- The calls of tinyxml2, on values: `insert_end_child` returns the parent with the child at its end.
pub record Xml (Node : Type 0) : Type 0 where
  pub new_element : Text → Node
  pub set_text : Text → Node → Node
  pub set_attribute : Text → ℕ → Node → Node
  pub insert_end_child : Node → Node → Node
  pub first_child_element : Node → Text → Option Node
  pub get_text : Node → Option Text
  -- XMLElement::Name
  pub name_of : Node → Text

-- The calls of wxWidgets. The constructor of a wxString from a pointer takes `none` for null.
pub record Host : Type 0 where
  pub mb_str : Text → Text
  pub from_chars : Option Text → Text
  -- `%d` and `%ld`
  pub format_int : ℤ → Text
  -- `%#018llx` and `%#10llx`
  pub format_hex : ℕ → ℕ → Text
  pub is_64_bit : Bool
  -- IsSameAs without the case
  pub same_but_case : Text → Text → Bool
  pub to_long : Text → Option ℤ
  -- the base comes first
  pub to_u_long_long : ℕ → Text → Option ℕ

-- BoolTowxString
unfoldable pub bool_to_text : Bool → Text
bool_to_text true = codes "True"
bool_to_text false = codes "False"

module _ (host : Host) where
  -- wxStringToBool
  unfoldable pub text_to_bool : Text → Bool
  text_to_bool value = host.same_but_case value (codes "True")

  -- the text that AddChildNodeHex writes
  unfoldable pub hex_text : ℕ → Text
  hex_text value = if host.is_64_bit then host.format_hex 18 value else host.format_hex 10 value

module _ {Node : Type 0} (xml : Xml Node) (host : Host) where
  -- AddChildNode with a text
  unfoldable pub add_child_node : Text → Text → Node → Node
  add_child_node name value parent =
      xml.insert_end_child parent (xml.set_text (host.mb_str value) (xml.new_element name))

  -- A row of calls.
  unfoldable pub add_child_nodes : List (String × Text) → Node → Node
  unfolding add_child_node
  add_child_nodes [] parent = parent
  add_child_nodes ((name, value) ∷ rest) parent =
      add_child_nodes rest (add_child_node (codes name) value parent)

  -- ReadChildNodewxString
  unfoldable pub read_text : Node → String → Text
  read_text parent name = read_of (xml.first_child_element parent (codes name))
    where
      read_of : Option Node → Text
      read_of (some child) = host.from_chars (xml.get_text child)
      read_of none = []

  -- ReadChildNodeLong; `none` where ToLong fails and leaves the variable without a value.
  unfoldable pub read_long : Node → String → Option ℤ
  unfolding read_text
  read_long parent name = host.to_long (read_text parent name)

  -- ReadChildNodeInt
  unfoldable pub read_int : Node → String → Option ℤ
  unfolding read_text to_int
  read_int parent name = Option.map to_int (host.to_long (read_text parent name))

  -- ReadChildNodeHex
  unfoldable pub read_hex : Node → String → Option ℕ
  unfolding read_text
  read_hex parent name = host.to_u_long_long 16 (read_text parent name)

  -- ReadChildNodeBool
  unfoldable pub read_bool : Node → String → Bool
  unfolding read_text text_to_bool
  read_bool parent name = text_to_bool host (read_text parent name)
