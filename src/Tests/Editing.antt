-- ===== src/Tests/Editing.antt =====
-- The breakpoints at concrete inputs.
use mathlib.Core.Option
use debugger_dap.Common.{
  map, filter, ◌++◌, ◌↔◌, ℕ, suc, ◌+◌, ◌≡◌, ◌≢◌, ◌≤◌, refl, ap, Bool, true, false, ◌&&◌, ◌||◌, List,
  [], ◌∷◌, Option, none, some, inl, length, All, ltb, ◌==◌,
}
use debugger_dap.Common.Int.{ℤ, pos, negsuc, ◌+ℤ◌, ◌-ℤ◌}
use debugger_dap.Text.{Text, codes, text_eq}
use debugger_dap.Text.Decimal.{to_string, atol, atol-to_string, atol-minus}
use debugger_dap.Client.Api.{set_breakpoints_file, perform}
use debugger_dap.Breakpoints.State.{
  told, TextMap, DapBreakpoint, Host, State, native_paths, unknown, minus_one, placed, startup,
}
use debugger_dap.Breakpoints.Update.{dap_name, update_dap}
use debugger_dap.Breakpoints.Actions.{
  add_breakpoint, source_name, has_pointer, erase_pointer, delete_breakpoint, reset_data,
}
use debugger_dap.Breakpoints.Events.{Reply, create_start_breakpoints}
use debugger_dap.Breakpoints.Shift.{shift_all_file_breakpoints, end_line}
use debugger_dap.Breakpoints.Index.{of_file}
use debugger_dap.Breakpoints.Indexed.{IsIndexed}
use debugger_dap.Breakpoints.Told.{line_of, is_on, update_dap_lem, delete_breakpoint-none}
use debugger_dap.Breakpoints.Added.{StandsAt, add_breakpoint-StandsAt}
use debugger_dap.Breakpoints.Run.{
  Operation, update, switch, replies, run, run-IsIndexed, empty-IsIndex,
}
use debugger_dap.Breakpoints.Started.{ReadsLines, create_start-reset_data}
use debugger_dap.Breakpoints.Shifted.{IsFree, shift_breakpoints-IsFree}
use debugger_dap.Tests.Sessions.{example_library, ready}

text_less : Text → Text → Bool
text_less _ [] = false
text_less [] (d ∷ t) = true
text_less (c ∷ s) (d ∷ t) = ltb c d || c == d && text_less s t

unfoldable pub format_int : ℤ → Text
format_int (pos n) = to_string n
format_int (negsuc n) = b'-' ∷ to_string (suc n)

abbrev editor : Host
editor = record {
  library = example_library;
  key_less = text_less;
  project_of = λ _. 1;
  unix_filename = λ name. name;
  unix_path = λ name. name;
  exists = λ _. true;
  relative_to = λ _ name. name;
  format_int = format_int;
  to_long = λ text. some (atol text);
  same_but_case = text_eq;
  substr = λ text start. none;
  testing = native_paths;
  exception_catch = false;
  exception_throw = false;
}

-- No breakpoints, in a session that is stopped.
abbrev pub at_rest : State
at_rest = record {
  objects = λ _. placed 0 [] minus_one minus_one;
  fresh = 0;
  breakpoints = [];
  temporary_breakpoints = [];
  file_map = [];
  dap_names = [];
  debuggee = [];
  exception_filters = [];
  start_type = unknown;
  flags = 12;
  client = ready;
  trace = [];
}

at_rest-IsIndexed : IsIndexed editor at_rest
at_rest-IsIndexed = empty-IsIndex editor at_rest.objects 0

abbrev main_file : Text
main_file = codes "main.cpp"

abbrev other_file : Text
other_file = codes "util.cpp"

-- Two breakpoints in one file and one in another; one is switched off.
abbrev edits : List Operation
edits =
    update main_file (pos 10) true minus_one
    ∷ update other_file (pos 3) true minus_one
    ∷ update main_file (pos 12) true minus_one
    ∷ switch 2 false
    ∷ []

abbrev or_rest : Option State → State
or_rest none = at_rest
or_rest (some s) = s

abbrev returns : Option State → Bool
returns none = false
returns (some s) = true

returned : (o : Option State) → returns o ≡ true → o ≡ some (or_rest o)
returned none e = cc
returned (some s) e = refl

abbrev edited : State
edited = or_rest (run editor edits at_rest)

edits_return : returns (run editor edits at_rest) ≡ true
unfolding run text_less Option.bind text_eq
edits_return = refl

run-IsIndexed_example : IsIndexed editor edited
run-IsIndexed_example =
    run-IsIndexed editor edits at_rest edited at_rest-IsIndexed
      (returned (run editor edits at_rest) edits_return)

add_breakpoint-StandsAt_example :
    (r : ℕ) × (t : State) × (add_breakpoint editor main_file (pos 10) edited ≡ some (r, t))
    × StandsAt editor (source_name main_file edited.dap_names) (pos 10) r t
    × (length t.breakpoints ≤ length edited.breakpoints + 1)
add_breakpoint-StandsAt_example =
    add_breakpoint-StandsAt editor main_file (pos 10) edited run-IsIndexed_example

main_file_has : of_file edited.objects main_file edited.breakpoints ≢ []
unfolding run text_less Option.bind text_eq
main_file_has e = cc e

stopped_edited : is_on edited ≡ true
unfolding run text_less Option.bind text_eq
stopped_edited = refl

update_dap_example :
    (names : TextMap Text) × (update_dap editor main_file edited
      ≡ some (
          let r =
            perform editor.library
              (set_breakpoints_file (dap_name editor edited.debuggee main_file) (
                map (line_of edited.objects) (
                  filter
                    (λ p. DapBreakpoint.enabled (edited.objects p))
                    (of_file edited.objects main_file edited.breakpoints))))
              edited.client in
          record edited { dap_names = names; client = r.0; trace = edited.trace ++ map told r.1 }))
update_dap_example =
    update_dap_lem editor main_file edited run-IsIndexed_example stopped_edited (inl main_file_has)

other_known : has_pointer 1 edited.breakpoints ≡ true
unfolding run text_less Option.bind text_eq has_pointer
other_known = refl

delete_breakpoint-none_example : (delete_breakpoint editor 1 edited ≡ none) ↔ (
    (is_on edited ≡ true)
    × (of_file edited.objects (edited.objects 1).filename (erase_pointer 1 edited.breakpoints) ≡ [])
    × (erase_pointer 1 edited.breakpoints ≢ []))
delete_breakpoint-none_example =
    delete_breakpoint-none editor 1 edited run-IsIndexed_example other_known

-- The only breakpoint of its file, while others are left.
delete_reads_end : delete_breakpoint editor 1 edited ≡ none
unfolding run text_less Option.bind text_eq delete_breakpoint erase_pointer
delete_reads_end = refl

editor_reads : ReadsLines editor
unfolding format_int
editor_reads (pos n) = ap some (atol-to_string n)
editor_reads (negsuc n) = ap some (atol-minus n)

none_wait : edited.temporary_breakpoints ≡ []
unfolding run text_less Option.bind text_eq
none_wait = refl

create_start-reset_data_example :
    (t : State) × (create_start_breakpoints editor (reset_data startup edited) ≡ some t)
    × IsIndexed editor t
    × (t.breakpoints ≡ edited.breakpoints)
create_start-reset_data_example =
    create_start-reset_data editor editor_reads edited run-IsIndexed_example none_wait

shift_breakpoints-IsFree_example :
    (t : State) × (shift_all_file_breakpoints editor main_file (pos 11) (pos 4) edited ≡ some t)
    × IsIndexed editor t
    × (t.breakpoints ≡ edited.breakpoints)
    × All
        (λ r. IsFree editor (source_name main_file edited.dap_names) (pos 11) 4 (t.objects r))
        t.breakpoints
shift_breakpoints-IsFree_example =
    shift_breakpoints-IsFree editor main_file (pos 11) 4 edited run-IsIndexed_example

-- Two lines are taken out at line 10 of a file with breakpoints on its lines 12 and 10, in this
-- order: the one of line 12 moves to line 10 and leaves the file map in place of the other.
abbrev cut : Option State
cut =
    Option.bind
      (run editor
        (update main_file (pos 12) true minus_one ∷ update main_file (pos 10) true minus_one ∷ [])
        at_rest)
      (shift_all_file_breakpoints editor main_file (pos 10) (negsuc 1))

cut_breakpoints : (or_rest cut).breakpoints ≡ 0 ∷ []
unfolding run text_less Option.bind text_eq shift_all_file_breakpoints ◌+ℤ◌ ◌-ℤ◌ end_line
cut_breakpoints = refl

cut_file_map : (or_rest cut).file_map ≡ (main_file, 1 ∷ []) ∷ []
unfolding run text_less Option.bind text_eq shift_all_file_breakpoints ◌+ℤ◌ ◌-ℤ◌ end_line
cut_file_map = refl

abbrev reply : ℤ → Reply
reply id = record { id = id; verified = true; line = pos 7; path = [] }

-- Breakpoints on line 7 of two files, and a reply for each: the first takes the number of the
-- second, which stays without one.
abbrev numbered : Option State
numbered =
    run editor
      (update main_file (pos 7) true minus_one
        ∷ update other_file (pos 7) true minus_one
        ∷ replies (reply (pos 1) ∷ [])
        ∷ replies (reply (pos 2) ∷ [])
        ∷ [])
      at_rest

numbered_first : ((or_rest numbered).objects 0).id ≡ pos 2
unfolding run text_less Option.bind text_eq
numbered_first = refl

numbered_second : ((or_rest numbered).objects 1).id ≡ minus_one
unfolding run text_less Option.bind text_eq
numbered_second = refl
