-- ===== src/Tests/Saving.antt =====
-- The stored settings at concrete inputs: elements as trees, and a host that writes all numbers in
-- decimal digits.
use debugger_dap.Common.{
  ℕ, suc, ◌≡◌, ◌<◌, ◌≤◌, refl, ap, ◌∙◌, arith, true, false, ◌||◌, [], ◌∷◌, Option, none, some,
  All-mono, Bool-cases, inl, inr, ◌==◌, map, if◌then◌else◌,
}
use debugger_dap.Common.Int.{ℤ, pos, negsuc}
use debugger_dap.Text.{Text, codes, text_eq, is_digit}
use debugger_dap.Text.Decimal.{
  IsNumeral, to_string, to_string-IsNumeral, atol, atol-to_string, atol-minus,
}
use debugger_dap.Breakpoints.State.{DapBreakpoint, placed, data_access, minus_one}
use debugger_dap.Settings.Xml.{Xml, Host}
use debugger_dap.Settings.Records.{
  DapWatch, hex, format_from, format_text, save_breakpoint, load_breakpoint, save_watch, load_watch,
}
use debugger_dap.Settings.Reading.{XmlLaws, HostLaws, IsAscii, lower, or_else}
use debugger_dap.Settings.Back.{load-save_breakpoint, load-save_watch}
use debugger_dap.Settings.Formats.{format_from-format_text}
use debugger_dap.Settings.Files.{Project, Files, save_state}
use debugger_dap.Settings.Lost.{save_state-none}
use debugger_dap.Tests.Editing.{format_int, at_rest}

mutual
  data Element : Type 0 where
    element : Text → Option Text → Elements → Element

  data Elements : Type 0 where
    end : Elements
    child : Element → Elements → Elements

name_of : Element → Text
name_of (element name _ _) = name

push : Elements → Element → Elements
push end e = child e end
push (child c rest) e = child c (push rest e)

first_of : Elements → Text → Option Element
unfolding name_of
first_of end name = none
first_of (child c rest) name = if text_eq (name_of c) name then some c else first_of rest name

insert : Element → Element → Element
unfolding push
insert (element name text children) e = element name text (push children e)

first_child : Element → Text → Option Element
unfolding first_of
first_child (element _ _ children) name = first_of children name

set_text : Text → Element → Element
set_text text (element name _ children) = element name (some text) children

get_text : Element → Option Text
get_text (element _ text _) = text

abbrev trees : Xml Element
trees = record {
  new_element = λ name. element name none end;
  set_text = set_text;
  set_attribute = λ _ _ e. e;
  insert_end_child = insert;
  first_child_element = first_child;
  get_text = get_text;
  name_of = name_of;
}

first_of-push :
    (children : Elements) (e : Element) (name : Text)
    → first_of (push children e) name
      ≡ or_else (first_of children name) (if text_eq (name_of e) name then some e else none)
unfolding first_of push
first_of-push end e name = refl
first_of-push (child c rest) e name = elim (Bool-cases (text_eq (name_of c) name)) [
  | inl here ↦ rw here refl
  | inr other ↦ rw other (first_of-push rest e name)
]

first-insert :
    (parent e : Element) (name : Text)
    → first_child (insert parent e) name
      ≡ or_else (first_child parent name) (if text_eq (name_of e) name then some e else none)
unfolding first_child insert
first-insert (element _ _ children) e name = first_of-push children e name

name-insert : (parent e : Element) → name_of (insert parent e) ≡ name_of parent
unfolding name_of insert
name-insert (element name text children) e = refl

trees_lem : XmlLaws trees
unfolding first_child first_of name_of set_text get_text
trees_lem = record {
  first-new = λ _ _. refl;
  first-insert = first-insert;
  name-new = λ _. refl;
  name-insert = name-insert;
  name-set = λ _ _. refl;
  get-set = λ _ _. refl;
}

chars_of : Option Text → Text
chars_of none = []
chars_of (some t) = t

unfoldable pub long_of : Text → Option ℤ
long_of [] = none
long_of (c ∷ t) = if is_digit c || c == b'-' then some (atol (c ∷ t)) else none

natural : ℤ → Option ℕ
natural (pos n) = some n
natural (negsuc n) = none

abbrev plain : Host
plain = record {
  mb_str = λ t. t;
  from_chars = chars_of;
  format_int = format_int;
  format_hex = λ _ n. to_string n;
  is_64_bit = true;
  same_but_case = λ a b. text_eq (map lower a) (map lower b);
  to_long = long_of;
  to_u_long_long = λ _ t. natural (atol t);
}

to_string-IsAscii : (n : ℕ) → IsAscii (to_string n)
to_string-IsAscii n =
    All-mono (λ c. is_digit c ≡ true) (λ c. c < 128) (λ c h. ground arith) (to_string n)
      (IsNumeral.all_digits (to_string-IsNumeral n))

format_int-IsAscii : (n : ℤ) → IsAscii (format_int n)
unfolding format_int
format_int-IsAscii (pos n) = to_string-IsAscii n
format_int-IsAscii (negsuc n) = (omega arith, to_string-IsAscii (suc n))

long_of-IsNumeral : (t : Text) → IsNumeral t → long_of t ≡ some (atol t)
unfolding long_of
long_of-IsNumeral [] m = absurd (cc (m.is_cons))
long_of-IsNumeral (c ∷ t) m = rw (m.all_digits.0) refl

pub long_of-format_int : (n : ℤ) → long_of (format_int n) ≡ some n
unfolding format_int long_of
long_of-format_int (pos n) =
    long_of-IsNumeral (to_string n) (to_string-IsNumeral n) ∙ ap some (atol-to_string n)
long_of-format_int (negsuc n) = ap some (atol-minus n)

long_of-letter : (c : ℕ) (t : Text) → 65 ≤ c → c ≤ 90 → long_of (c ∷ t) ≡ none
unfolding long_of
long_of-letter c t low high = ground arith

plain_lem : HostLaws plain
unfolding chars_of natural
plain_lem = record {
  chars = λ t h. refl;
  format_int-IsAscii = format_int-IsAscii;
  format_hex-IsAscii = λ width n. to_string-IsAscii n;
  to_long-format_int = λ n h. long_of-format_int n;
  to_long-letter = long_of-letter;
  to_u_long_long-format_hex = λ width n h. ap natural (atol-to_string n);
  same_but_case_lem = λ a b h k. refl;
}

abbrev watchpoint : DapBreakpoint
watchpoint =
    let b = placed 1 (codes "main.cpp") (pos 12) (pos 4) in
    record b {
      type = data_access;
      condition = codes "x > 3";
      ignore_count = minus_one;
      address = 4096;
    }

load-save_breakpoint_example :
    load_breakpoint trees plain
      (save_breakpoint trees plain (codes "demo") watchpoint)
      (placed 2 [] minus_one minus_one)
    ≡ some (record watchpoint { project = 2; id = minus_one })
unfolding placed
load-save_breakpoint_example =
    load-save_breakpoint trees plain trees_lem plain_lem (codes "demo") watchpoint
      (placed 2 [] minus_one minus_one)
      (record {
        filename = ground arith;
        condition = ground arith;
        function = tt;
        line_text = tt;
        break_address = tt;
        line = omega arith;
        ignore_count = omega arith;
        address = omega arith;
      })

abbrev watch_x : DapWatch
watch_x = record {
  project = 1;
  class_name = codes "DAPWatch";
  symbol = codes "x";
  value = [];
  type = codes "int";
  format = hex;
  debug_string = [];
  has_been_expanded = false;
  for_tooltip = false;
  delete_on_collapse = true;
  array_start = minus_one;
  array_end = minus_one;
  is_array = false;
  is_for_tooltip = false;
}

load-save_watch_example :
    load_watch trees plain (save_watch trees plain (codes "demo") watch_x) watch_x ≡ none
load-save_watch_example =
    load-save_watch trees plain trees_lem plain_lem (codes "demo") watch_x watch_x

hex_format_back : format_from plain (format_text hex) ≡ hex
hex_format_back = format_from-format_text plain plain_lem hex

-- A disk with one file.
abbrev one_file : Files Element (Option Element)
one_file = record {
  state_path = λ name. name;
  save_file = λ _ root _. (some root, 0);
  held = λ _ disk. disk;
}

abbrev demo : Project
demo = record {
  number = 1;
  filename = codes "demo.cbp";
  title = codes "demo";
  compiler_name = codes "GCC";
  dbg_config = codes "lldb";
}

save_state-none_example :
    (root : Element) × ((save_state trees plain one_file demo at_rest (watch_x ∷ []) none).0
      ≡ some root)
    × (first_child root (codes "BreakpointsList") ≡ none)
    × (first_child root (codes "WatchesList") ≡ none)
    × ((save_state trees plain one_file demo at_rest (watch_x ∷ []) none).1 ≡ false)
save_state-none_example =
    save_state-none trees plain trees_lem one_file (λ _ _ _ _. refl) demo at_rest (watch_x ∷ [])
      none (λ e. cc) (λ _ _ _. refl)
