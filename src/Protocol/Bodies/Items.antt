-- ===== src/Protocol/Bodies/Items.antt =====
-- Arrays that are filled item by item, read back by the loops of src/DebugAdapterProtocol/JSON.cpp.
use debugger_dap.Common.{
  suc, ◌+◌, ◌≡◌, refl, ap, sym, ◌∙◌, List, [], ◌∷◌, ◌++◌, map, some, length, length-append,
  append_assoc,
}
use debugger_dap.Json.{
  Node, Items, nil, cons, array, append_item, add, create_array, item, item_at, items_from,
  read_items, get_count, count_items,
}
use debugger_dap.Protocol.Requests.{add_items}

-- The children of an array that is filled in order.
unfoldable pub items_of : List Node → Items
items_of [] = nil
items_of (node ∷ rest) = cons node (items_of rest)

unfoldable pub append_items : Items → List Node → Items
append_items nil nodes = items_of nodes
append_items (cons node rest) nodes = cons node (append_items rest nodes)

append_items-append_item :
    (items : Items) (node : Node) (rest : List Node)
    → append_items (append_item items node) rest ≡ append_items items (node ∷ rest)
unfolding append_items append_item items_of
append_items-append_item nil node rest = refl
append_items-append_item (cons m items) node rest =
    ap (cons m) (append_items-append_item items node rest)

append_items-nil : (items : Items) → append_items items [] ≡ items
unfolding append_items items_of
append_items-nil nil = refl
append_items-nil (cons m items) = ap (cons m) (append_items-nil items)

pub add_items-array :
    (items : Items) (nodes : List Node)
    → add_items (array items) nodes ≡ array (append_items items nodes)
unfolding add_items add
add_items-array items [] = ap array (sym (append_items-nil items))
add_items-array items (node ∷ nodes) =
    add_items-array (append_item items node) nodes
    ∙ ap array (append_items-append_item items node nodes)

item_at-length :
    (before : List Node) (node : Node) (rest : List Node)
    → item_at (items_of (before ++ node ∷ rest)) (length before) ≡ some node
unfolding item_at items_of
item_at-length [] node rest = refl
item_at-length (m ∷ before) node rest = item_at-length before node rest

items_from-length :
    (before nodes : List Node)
    → items_from (some (array (items_of (before ++ nodes)))) (length nodes) (length before)
      ≡ map some nodes
unfolding items_from item
items_from-length before [] = refl
items_from-length before (node ∷ nodes) =
    let assoc = append_assoc before (node ∷ []) nodes in
    let rest = items_from-length (before ++ node ∷ []) nodes in
    ap
      (λ j.
        j
        ∷ items_from (some (array (items_of (before ++ node ∷ nodes)))) (length nodes)
            (length before + 1))
      (item_at-length before node nodes)
    ∙ ap (◌∷◌ (some node)) (
        ap (λ all. items_from (some (array (items_of all))) (length nodes) (length before + 1))
          (sym assoc)
        ∙ ap (items_from (some (array (items_of ((before ++ node ∷ []) ++ nodes)))) (length nodes))
            (sym (length-append before (node ∷ [])))
        ∙ rest)

count_items-items_of : (nodes : List Node) → count_items (items_of nodes) ≡ length nodes
unfolding count_items items_of
count_items-items_of [] = refl
count_items-items_of (node ∷ nodes) = ap suc (count_items-items_of nodes)

-- The loop over an array reads what was added, in order.
pub read_items-add_items :
    (nodes : List Node) → read_items (some (add_items create_array nodes)) ≡ map some nodes
unfolding read_items get_count append_items
read_items-add_items nodes =
    ap (λ a. read_items (some a)) (add_items-array nil nodes)
    ∙ ap (λ count. items_from (some (array (items_of nodes))) count 0) (count_items-items_of nodes)
    ∙ items_from-length [] nodes
