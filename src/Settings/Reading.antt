-- ===== src/Settings/Reading.antt =====
-- What tinyxml2 and wxWidgets promise for Settings/Xml, and a child's text read back.
use mathlib.Core.Option
use debugger_dap.Common.{
  ℕ, ◌+◌, ◌-◌, ◌≤◌, ◌<◌, ◌≡◌, ap, sym, ◌∙◌, Bool, true, false, ◌&&◌, List, [], ◌∷◌, String, Option,
  none, some, map, All, arith, leb, if◌then◌else◌, Bool-cases, inl, inr,
}
use debugger_dap.Common.Int.{to_int, int_half, ℤ, pos, negsuc, ◌≤ℤ◌, ◌<ℤ◌}
use debugger_dap.Text.{Text, codes, text_eq}
use debugger_dap.Settings.Xml.{
  Xml, Host, bool_to_text, text_to_bool, add_child_node, add_child_nodes, read_text,
}

abbrev pub IsAscii : Text → Type 0
IsAscii = All (λ c. c < 128)

-- 2 ^ 63
abbrev long_half : ℕ
long_half = 9223372036854775808

-- An integer of 32 bits.
abbrev pub IsInt : ℤ → Type 0
IsInt n = (negsuc (int_half - 1) ≤ℤ n) × (n <ℤ pos int_half)

-- An integer of 64 bits.
abbrev pub IsLong : ℤ → Type 0
IsLong n = (negsuc (long_half - 1) ≤ℤ n) × (n <ℤ pos long_half)

abbrev pub lower : ℕ → ℕ
lower c = if leb 65 c && leb c 90 then c + 32 else c

abbrev pub or_else : {A : Type 0} → Option A → Option A → Option A
or_else none other = other
or_else (some a) other = some a

-- An element has no children at first; FirstChildElement is the first child of the name.
pub record XmlLaws {Node : Type 0} (xml : Xml Node) : Type 0 where
  pub first-new : (name child : Text) → xml.first_child_element (xml.new_element name) child ≡ none
  pub first-insert :
      (parent child : Node) (name : Text)
      → xml.first_child_element (xml.insert_end_child parent child) name
        ≡ or_else
            (xml.first_child_element parent name)
            (if text_eq (xml.name_of child) name then some child else none)
  pub name-new : (name : Text) → xml.name_of (xml.new_element name) ≡ name
  pub name-insert :
      (parent child : Node) → xml.name_of (xml.insert_end_child parent child) ≡ xml.name_of parent
  pub name-set : (text name : Text) → xml.name_of (xml.set_text text (xml.new_element name)) ≡ name
  pub get-set :
      (text name : Text) → xml.get_text (xml.set_text text (xml.new_element name)) ≡ some text

-- ASCII texts survive the encoding; what Format writes is ASCII and is read back within its type;
-- a text that begins with a letter is no number; IsSameAs compares ASCII texts in lower case.
pub record HostLaws (host : Host) : Type 0 where
  pub chars : (t : Text) → IsAscii t → host.from_chars (some (host.mb_str t)) ≡ t
  pub format_int-IsAscii : (n : ℤ) → IsAscii (host.format_int n)
  pub format_hex-IsAscii : (width n : ℕ) → IsAscii (host.format_hex width n)
  pub to_long-format_int : (n : ℤ) → IsLong n → host.to_long (host.format_int n) ≡ some n
  pub to_long-letter : (c : ℕ) (t : Text) → 65 ≤ c → c ≤ 90 → host.to_long (c ∷ t) ≡ none
  pub to_u_long_long-format_hex :
      (width n : ℕ)
      → n < 18446744073709551616
      → host.to_u_long_long 16 (host.format_hex width n) ≡ some n
  pub same_but_case_lem :
      (a b : Text)
      → IsAscii a
      → IsAscii b
      → host.same_but_case a b ≡ text_eq (map lower a) (map lower b)

-- The value of the first child of the name.
abbrev pub seek : String → List (String × Text) → Option Text
seek name [] = none
seek name ((n, value) ∷ rest) =
    if text_eq (codes n) (codes name) then some value else seek name rest

pub to_int_lem : (n : ℤ) → IsInt n → to_int n ≡ n
unfolding to_int
to_int_lem (pos n) h = ground arith
to_int_lem (negsuc n) h = ground arith

module _ {Node : Type 0} (xml : Xml Node) (host : Host) (laws : XmlLaws xml) where
  element : String → Text → Node
  element name value = xml.set_text (host.mb_str value) (xml.new_element (codes name))

  first-kept :
      (name : Text) (entries : List (String × Text)) (parent child : Node)
      → xml.first_child_element parent name ≡ some child
      → xml.first_child_element (add_child_nodes xml host entries parent) name ≡ some child
  unfolding add_child_nodes add_child_node
  first-kept name [] parent child h = h
  first-kept name ((n, value) ∷ entries) parent child h =
      first-kept name entries (add_child_node xml host (codes n) value parent) child (
        laws.first-insert parent (xml.set_text (host.mb_str value) (xml.new_element (codes n))) name
        ∙ ap
            (λ o. or_else o (
              if text_eq
                (xml.name_of (xml.set_text (host.mb_str value) (xml.new_element (codes n)))) name
              then some (xml.set_text (host.mb_str value) (xml.new_element (codes n)))
              else none))
            h)

  first-seek :
      (name : String) (value : Text) (entries : List (String × Text)) (parent : Node)
      → xml.first_child_element parent (codes name) ≡ none
      → seek name entries ≡ some value
      → (child : Node) × (xml.first_child_element
            (add_child_nodes xml host entries parent)
            (codes name)
          ≡ some child)
        × (xml.get_text child ≡ some (host.mb_str value))
  unfolding add_child_nodes add_child_node element
  first-seek name value [] parent none_yet h = absurd (cc)
  first-seek name value ((n, v) ∷ entries) parent none_yet h =
      let added = add_child_node xml host (codes n) v parent in
      let same = text_eq (codes n) (codes name) in
      let here : xml.first_child_element added (codes name)
          ≡ (if same then some (element n v) else none) =
        laws.first-insert parent (element n v) (codes name)
        ∙ ap
            (λ o. or_else o (
              if text_eq (xml.name_of (element n v)) (codes name)
              then some (element n v)
              else none))
            none_yet
        ∙ ap (λ t. if text_eq t (codes name) then some (element n v) else none)
            (laws.name-set (host.mb_str v) (codes n)) in
      elim (Bool-cases same) [
        | inl yes_same ↦ (
          element n v,
          first-kept (codes name) entries added (element n v)
              (here ∙ ap (λ b. if b then some (element n v) else none) yes_same),
          laws.get-set (host.mb_str v) (codes n)
              ∙ ap (Option.map host.mb_str)
                  (sym (ap (λ b. if b then some v else seek name entries) yes_same) ∙ h),
        )
        | inr other ↦
            first-seek name value entries added
              (here ∙ ap (λ b. if b then some (element n v) else none) other)
              (sym (ap (λ b. if b then some v else seek name entries) other) ∙ h)
      ]

  -- The text of the first child of a name, among children that are added to an element without any.
  pub read_text-seek :
      HostLaws host
      → (kind : Text) (name : String) (entries : List (String × Text)) (value : Text)
      → seek name entries ≡ some value
      → IsAscii value
      → read_text xml host (add_child_nodes xml host entries (xml.new_element kind)) name ≡ value
  unfolding read_text
  read_text-seek host_laws kind name entries value found ascii =
      let (child, at, has) =
        first-seek name value entries (xml.new_element kind) (laws.first-new kind (codes name))
          found in
      rw at (ap host.from_chars has ∙ host_laws.chars value ascii)

pub bool_to_text-IsAscii : (b : Bool) → IsAscii (bool_to_text b)
unfolding bool_to_text
bool_to_text-IsAscii true = ground arith
bool_to_text-IsAscii false = ground arith

pub text_to_bool-bool_to_text :
    (host : Host) → HostLaws host → (b : Bool) → text_to_bool host (bool_to_text b) ≡ b
unfolding text_to_bool bool_to_text text_eq
text_to_bool-bool_to_text host laws true =
    laws.same_but_case_lem (codes "True") (codes "True") (ground arith) (ground arith)
text_to_bool-bool_to_text host laws false =
    laws.same_but_case_lem (codes "False") (codes "True") (ground arith) (ground arith)
