-- ===== src/Json.antt =====
-- `dap::Json` (src/DebugAdapterProtocol/JSON.cpp, JSON.hpp): a handle on a node of a tree of the
-- cJSON library. The tree is a value here: a handle on a child is the child, and what the code adds
-- through such a handle is added before the child is put into its parent.
pub mod Strings
use debugger_dap.Common.{
  ℕ, zero, suc, ◌+◌, List, [], ◌∷◌, map, Bool, true, false, Option, none, some, if◌then◌else◌,
}
use debugger_dap.Common.Int.{ℤ}
use debugger_dap.Text.{Text, text_eq}

-- A node with its type tag. `valueint` and `valuedouble` of a number are one integer: every
-- number of the protocol that the code reads or writes is one.
mutual
  pub data Node : Type 0 where
    null : Node
    bool : Bool → Node
    number : ℤ → Node
    text : Text → Node
    array : Items → Node
    object : Fields → Node

  -- The children of an array.
  pub data Items : Type 0 where
    nil : Items
    cons : Node → Items → Items

  -- The children of an object, with their names, in order.
  pub data Fields : Type 0 where
    end : Fields
    field : Text → Node → Fields → Fields

-- A `Json` value: `none` is a null `m_cjson`.
abbrev pub Json : Type 0
Json = Option Node

-- `IsOK()`
abbrev pub is_ok : Json → Bool
is_ok none = false
is_ok (some node) = true

unfoldable pub find_field : Fields → Text → Json
find_field end index = none
find_field (field name node rest) index =
    if text_eq name index then some node else find_field rest index

-- `operator[]` with a name: the first child that has it. The children of an array have none.
unfoldable pub child : Json → Text → Json
unfolding find_field
child (some (object fields)) index = find_field fields index
child _ index = none

unfoldable pub count_items : Items → ℕ
count_items nil = 0
count_items (cons node rest) = suc (count_items rest)

unfoldable pub count_fields : Fields → ℕ
count_fields end = 0
count_fields (field name node rest) = suc (count_fields rest)

-- `GetCount`
unfoldable pub get_count : Json → ℕ
unfolding count_items count_fields
get_count (some (array items)) = count_items items
get_count (some (object fields)) = count_fields fields
get_count _ = 0

unfoldable pub item_at : Items → ℕ → Json
item_at nil index = none
item_at (cons node rest) zero = some node
item_at (cons node rest) (suc index) = item_at rest index

unfoldable pub field_at : Fields → ℕ → Json
field_at end index = none
field_at (field name node rest) zero = some node
field_at (field name node rest) (suc index) = field_at rest index

-- `operator[]` with a number: the child at the place, a null value behind the last.
unfoldable pub item : Json → ℕ → Json
unfolding item_at field_at
item (some (array items)) index = item_at items index
item (some (object fields)) index = field_at fields index
item _ index = none

-- `for (i = 0; i < count; ++i)` over the children: what is read in each round, from a round on.
unfoldable pub items_from : Json → ℕ → ℕ → List Json
unfolding item
items_from json zero index = []
items_from json (suc rounds) index = item json index ∷ items_from json rounds (index + 1)

unfoldable pub read_items : Json → List Json
unfolding items_from get_count
read_items json = items_from json (get_count json) 0

-- `GetString`, on names and other texts of ASCII characters, which the conversion from `char*` leaves
-- alone. Json/Strings has the conversions.
unfoldable pub get_string : Json → Text → Text
get_string (some (text value)) default_value = value
get_string _ default_value = default_value

-- `GetNumber` and `GetInteger`
unfoldable pub get_integer : Json → ℤ → ℤ
get_integer (some (number value)) default_value = value
get_integer _ default_value = default_value

-- `GetBool`. The second half of its guard compares the pointer `m_cjson`, and not the node's type,
-- with the constant 0 of `cJsonDap_False`, so the default is returned for every node but True.
unfoldable pub get_bool : Json → Bool → Bool
get_bool (some (bool true)) default_value = true
get_bool _ default_value = default_value

-- `cJSON_AddItemToObject` and `cJSON_AddItemToArray`: as cJSON documents them, the child is put
-- behind the others.
unfoldable pub append_field : Fields → Text → Node → Fields
append_field end name node = field name node end
append_field (field n m rest) name node = field n m (append_field rest name node)

unfoldable pub append_item : Items → Node → Items
append_item nil node = cons node nil
append_item (cons m rest) node = cons m (append_item rest node)

-- The overloads of `Add` with a name: the container, with the node at its end. The node of a text is
-- the text itself where it has ASCII characters and no NUL; Json/Strings has the conversions.
unfoldable pub add : Node → Text → Node → Node
unfolding append_field append_item
add (object fields) name node = object (append_field fields name node)
add (array items) name node = array (append_item items node)
add other name node = other

-- `CreateObject` and `CreateArray`
abbrev pub create_object : Node
create_object = object end

abbrev pub create_array : Node
create_array = array nil
