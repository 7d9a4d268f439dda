-- ===== src/Settings/Back.antt =====
-- What the nodes of Settings/Records give back.
use mathlib.Core.Option
use debugger_dap.Common.{
  ℕ, ◌≡◌, ◌<◌, refl, ap, ◌∙◌, Bool, true, false, List, ◌∷◌, String, none, some, arith, Bool-cases,
  Option-cases, ◌≤◌, inl, inr,
}
use debugger_dap.Common.Int.{to_int, ℤ}
use debugger_dap.Text.{Text, codes, text_eq}
use debugger_dap.Breakpoints.State.{DapBreakpoint, BreakpointType, code, function, data_access}
use debugger_dap.Settings.Xml.{
  Xml, Host, bool_to_text, text_to_bool, hex_text, add_child_nodes, read_int, read_long, read_bool,
  read_hex,
}
use debugger_dap.Settings.Records.{
  type_text, set_type, DapWatch, breakpoint_children, watch_children, save_breakpoint,
  load_breakpoint, save_watch, load_watch,
}
use debugger_dap.Settings.Reading.{
  IsAscii, IsInt, IsLong, XmlLaws, HostLaws, seek, to_int_lem, read_text-seek, bool_to_text-IsAscii,
  text_to_bool-bool_to_text,
}

type_text-IsAscii : (type : BreakpointType) → IsAscii (type_text type)
unfolding type_text
type_text-IsAscii code = ground arith
type_text-IsAscii function = ground arith
type_text-IsAscii data_access = ground arith

module _ (host : Host) (laws : HostLaws host) where
  set_type-type_text : (type old : BreakpointType) → set_type host (type_text type) old ≡ type
  unfolding set_type type_text text_eq
  set_type-type_text code old =
      rw (laws.same_but_case_lem (codes "bptCode") (codes "bptCode") (ground arith) (ground arith))
        refl
  set_type-type_text function old =
      rw
        (
          laws.same_but_case_lem (codes "bptFunction") (codes "bptCode") (ground arith)
              (ground arith),
          laws.same_but_case_lem (codes "bptFunction") (codes "bptFunction") (ground arith)
              (ground arith),
        )
        refl
  set_type-type_text data_access old =
      rw
        (
          laws.same_but_case_lem (codes "bptData") (codes "bptCode") (ground arith) (ground arith),
          laws.same_but_case_lem (codes "bptData") (codes "bptFunction") (ground arith)
              (ground arith),
          laws.same_but_case_lem (codes "bptData") (codes "bptData") (ground arith) (ground arith),
        )
        refl

hex_text-IsAscii : (host : Host) → HostLaws host → (n : ℕ) → IsAscii (hex_text host n)
unfolding hex_text
hex_text-IsAscii host laws n = elim (Bool-cases host.is_64_bit) [
  | inl yes_64 ↦ rw yes_64 (laws.format_hex-IsAscii 18 n)
  | inr other ↦ rw other (laws.format_hex-IsAscii 10 n)
]

to_u_long_long-hex_text :
    (host : Host)
    → HostLaws host
    → (n : ℕ) → n < 18446744073709551616
    → host.to_u_long_long 16 (hex_text host n) ≡ some n
unfolding hex_text
to_u_long_long-hex_text host laws n h = elim (Bool-cases host.is_64_bit) [
  | inl yes_64 ↦ rw yes_64 (laws.to_u_long_long-format_hex 18 n h)
  | inr other ↦ rw other (laws.to_u_long_long-format_hex 10 n h)
]

IsInt-IsLong : (n : ℤ) → IsInt n → IsLong n
IsInt-IsLong n h = omega arith

-- What is written of a breakpoint is within the types and in ASCII.
pub record IsWritable (b : DapBreakpoint) : Type 0 where
  pub filename : IsAscii b.filename
  pub condition : IsAscii b.condition
  pub function : IsAscii b.function
  pub line_text : IsAscii b.line_text
  pub break_address : IsAscii b.break_address
  pub line : IsInt b.line
  pub ignore_count : IsInt b.ignore_count
  pub address : b.address < 18446744073709551616

module _ {Node : Type 0} (xml : Xml Node) (host : Host) (laws : XmlLaws xml)
    (host_laws : HostLaws host) where
  flag :
      (kind : Text) (name : String) (entries : List (String × Text)) (b : Bool)
      → seek name entries ≡ some (bool_to_text b)
      → read_bool xml host (add_child_nodes xml host entries (xml.new_element kind)) name ≡ b
  unfolding read_bool
  flag kind name entries b found =
      ap (text_to_bool host) (
        read_text-seek xml host laws host_laws kind name entries (bool_to_text b) found
          (bool_to_text-IsAscii b))
      ∙ text_to_bool-bool_to_text host host_laws b

  int_back :
      (kind : Text) (name : String) (entries : List (String × Text)) (n : ℤ)
      → seek name entries ≡ some (host.format_int n)
      → IsInt n
      → read_int xml host (add_child_nodes xml host entries (xml.new_element kind)) name ≡ some n
  unfolding read_int
  int_back kind name entries n found h =
      ap (λ t. Option.map to_int (host.to_long t))
        (read_text-seek xml host laws host_laws kind name entries (host.format_int n) found
          (host_laws.format_int-IsAscii n))
      ∙ ap (Option.map to_int) (host_laws.to_long-format_int n (IsInt-IsLong n h))
      ∙ ap some (to_int_lem n h)

  hex_back :
      (kind : Text) (name : String) (entries : List (String × Text)) (n : ℕ)
      → seek name entries ≡ some (hex_text host n)
      → n < 18446744073709551616
      → read_hex xml host (add_child_nodes xml host entries (xml.new_element kind)) name ≡ some n
  unfolding read_hex
  hex_back kind name entries n found h =
      ap (host.to_u_long_long 16) (
        read_text-seek xml host laws host_laws kind name entries (hex_text host n) found
          (hex_text-IsAscii host host_laws n))
      ∙ to_u_long_long-hex_text host host_laws n h

  -- Under XmlLaws and HostLaws, the node of a breakpoint whose texts are ASCII and whose numbers are
  -- within their types gives back every member but the project and the number.
  pub load-save_breakpoint :
      (title : Text) (b old : DapBreakpoint)
      → IsWritable b
      → load_breakpoint xml host (save_breakpoint xml host title b) old
        ≡ some (record b { project = old.project; id = old.id })
  unfolding load_breakpoint save_breakpoint breakpoint_children text_eq
  load-save_breakpoint title b old h =
      let entries = breakpoint_children host title b in
      let kind = codes "Breakpoint" in
      let text_back = read_text-seek xml host laws host_laws kind in
      let e_type =
        ap (λ t. set_type host t old.type)
          (text_back "type" entries (type_text b.type) refl (type_text-IsAscii b.type))
        ∙ set_type-type_text host host_laws b.type old.type in
      let e_filename = text_back "filename" entries b.filename refl h.filename in
      let e_temporary = flag kind "temporary" entries b.temporary refl in
      let e_enabled = flag kind "enabled" entries b.enabled refl in
      let e_active = flag kind "active" entries b.active refl in
      let e_use_ignore_count = flag kind "useIgnoreCount" entries b.use_ignore_count refl in
      let e_use_condition = flag kind "useCondition" entries b.use_condition refl in
      let e_wants_condition = flag kind "wantsCondition" entries b.wants_condition refl in
      let e_condition = text_back "condition" entries b.condition refl h.condition in
      let e_function = text_back "function" entries b.function refl h.function in
      let e_already_set = flag kind "alreadySet" entries b.already_set refl in
      let e_line_text = text_back "lineText" entries b.line_text refl h.line_text in
      let e_break_address = text_back "breakAddress" entries b.break_address refl h.break_address in
      let e_break_on_read = flag kind "breakOnRead" entries b.break_on_read refl in
      let e_break_on_write = flag kind "breakOnWrite" entries b.break_on_write refl in
      rw
        (
          int_back kind "line" entries b.line refl h.line,
          int_back kind "ignoreCount" entries b.ignore_count refl h.ignore_count,
          hex_back kind "address" entries b.address refl h.address,
        )
        (cc)

  bool_text_letter :
      (b : Bool) → (c : ℕ) × (t : Text) × (bool_to_text b ≡ c ∷ t) × (65 ≤ c) × (c ≤ 90)
  unfolding bool_to_text
  bool_text_letter true = (84, codes "rue", refl, omega arith, omega arith)
  bool_text_letter false = (70, codes "alse", refl, omega arith, omega arith)

  is_array_lost :
      (title : Text) (w : DapWatch)
      → read_long xml host (save_watch xml host title w) "is_array" ≡ none
  unfolding read_long save_watch watch_children text_eq
  is_array_lost title w =
      let (c, t, e, low, high) = bool_text_letter w.is_array in
      ap host.to_long (
        read_text-seek xml host laws host_laws (codes "Watch") "is_array"
          (watch_children host title w) (bool_to_text w.is_array) refl
          (bool_to_text-IsAscii w.is_array)
        ∙ e)
      ∙ host_laws.to_long-letter c t low high

  -- Under XmlLaws and HostLaws, reading the node of any watch leaves a member without a value.
  pub load-save_watch :
      (title : Text) (w old : DapWatch)
      → load_watch xml host (save_watch xml host title w) old ≡ none
  unfolding load_watch
  load-save_watch title w old =
      let node = save_watch xml host title w in
      elim (Option-cases (read_int xml host node "array_start")) [
        | inl lost ↦ rw lost refl
        | inr (start, read_start) ↦ elim (Option-cases (read_long xml host node "array_end")) [
          | inl lost ↦ rw (read_start, lost) refl
          | inr (stop, read_stop) ↦ rw (read_start, read_stop, is_array_lost title w) refl
        ]
      ]
