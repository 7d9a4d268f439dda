-- ===== src/Breakpoints/Told.antt =====
-- What the debugger is told of the breakpoints of a file, and where the code reads through `end()`
-- instead.
use mathlib.Core.Option
use debugger_dap.Common.{
  ◌⊎◌, ◌↔◌, ℕ, ◌≡◌, ◌≢◌, refl, ap, sym, ◌∙◌, Bool, true, false, ◌&&◌, List, [], ◌∷◌, Option, none,
  some, map, filter, ◌++◌, if◌then◌else◌, Bool-cases, Option-cases, inl, inr,
}
use debugger_dap.Text.{Text}
use debugger_dap.DebuggerState.{is_running, is_stopped}
use debugger_dap.Protocol.Requests.{SourceBreakpoint}
use debugger_dap.Client.Api.{set_breakpoints_file, perform}
use debugger_dap.Breakpoints.State.{
  told, tell, DapBreakpoint, TextMap, Host, State, get_location, location_of,
}
use debugger_dap.Breakpoints.FileMap.{find_entry, update_file_map}
use debugger_dap.Text.Find.{text_eq_refl}
use debugger_dap.Breakpoints.Containers.{container, or_nil}
use debugger_dap.Breakpoints.Update.{
  dap_name, note_name, update_dap, lines_to_send, enabled_lines, send_lines,
}
use debugger_dap.Breakpoints.Actions.{
  has_pointer, erase_pointer, drop_object, delete_breakpoint, delete_by_type,
}
use debugger_dap.Breakpoints.Index.{of_file, All-has_pointer}
use debugger_dap.Breakpoints.Indexed.{IsIndex, IsIndexed, IsSound}
use debugger_dap.Breakpoints.Deleted.{drop_object-IsIndexed}

abbrev pub is_on : State → Bool
is_on s = is_running s.flags && is_stopped s.flags

pub none-ne-some : {s : State} → ◌≡◌ {A = Option State} none (some s) → ⊥
none-ne-some e = cc

-- The line of a breakpoint, as it is sent.
abbrev pub line_of : (ℕ → DapBreakpoint) → ℕ → SourceBreakpoint
line_of objects p = record { line = (objects p).line; condition = [] }

enabled_lines-filter :
    (objects : ℕ → DapBreakpoint) (refs : List ℕ)
    → enabled_lines objects refs
      ≡ map (line_of objects) (filter (λ p. DapBreakpoint.enabled (objects p)) refs)
unfolding enabled_lines
enabled_lines-filter objects [] = refl
enabled_lines-filter objects (p ∷ refs) = elim (Bool-cases ((objects p).enabled)) [
  | inl on ↦ rw on (ap (◌∷◌ (line_of objects p)) (enabled_lines-filter objects refs))
  | inr off ↦ rw off (enabled_lines-filter objects refs)
]

module _ (host : Host) {objects : ℕ → DapBreakpoint} {fresh : ℕ} {refs : List ℕ}
    {m : TextMap (List ℕ)} (h : IsIndex host objects fresh refs m) where
  -- What is found under a file that has breakpoints.
  pub find-of_file :
      (filename : Text)
      → of_file objects filename refs ≢ []
      → find_entry filename m ≡ some (of_file objects filename refs)
  find-of_file filename some_here = by_entry (Option-cases (find_entry filename m))
    where
      by_entry :
          (find_entry filename m ≡ none) ⊎ ((v : List ℕ) × (find_entry filename m ≡ some v))
          → find_entry filename m ≡ some (of_file objects filename refs)
      by_entry (inl e) = absurd (some_here (sym (h.indexes filename) ∙ ap or_nil e))
      by_entry (inr (v, e)) = e ∙ ap some (sym (ap or_nil e) ∙ h.indexes filename)

  pub find-none-of_file :
      (filename : Text) → of_file objects filename refs ≡ [] → find_entry filename m ≡ none
  find-none-of_file filename e = by_entry (Option-cases (find_entry filename m))
    where
      by_entry :
          (find_entry filename m ≡ none) ⊎ ((v : List ℕ) × (find_entry filename m ≡ some v))
          → find_entry filename m ≡ none
      by_entry (inl e) = e
      by_entry (inr (v, found)) =
          absurd
            (h.filled filename (found ∙ ap some (sym (ap or_nil found) ∙ h.indexes filename ∙ e)))

  pub map-nil : refs ≡ [] → m ≡ []
  unfolding find_entry
  map-nil e = by_map m refl
    where
      by_map : (n : TextMap (List ℕ)) → m ≡ n → m ≡ []
      by_map [] q = q
      by_map ((k, v) ∷ n) q =
          let found : find_entry k m ≡ some v =
            ap (find_entry k) q ∙ ap (λ b. if b then some v else find_entry k n) (text_eq_refl k) in
          absurd (
            h.filled k
              (found ∙ ap some (sym (ap or_nil found) ∙ h.indexes k ∙ ap (of_file objects k) e)))

  pub refs-nil : m ≡ [] → refs ≡ []
  unfolding find_entry
  refs-nil e = by_refs refs refl
    where
      by_refs : (qs : List ℕ) → refs ≡ qs → refs ≡ []
      by_refs [] q = q
      by_refs (r ∷ qs) q =
          let f = (objects r).filename in
          let shown : of_file objects f refs ≡ r ∷ of_file objects f qs =
            ap (of_file objects f) q
            ∙ ap (λ b. if b then r ∷ of_file objects f qs else of_file objects f qs)
                (text_eq_refl f) in
          let hidden : of_file objects f refs ≡ [] = sym (h.indexes f) ∙ ap (container f) e in
          absurd (cc)

  pub lines-of_file :
      (filename : Text)
      → (of_file objects filename refs ≢ []) ⊎ (refs ≡ [])
      → lines_to_send objects filename m
        ≡ some (enabled_lines objects (of_file objects filename refs))
  unfolding lines_to_send enabled_lines
  lines-of_file filename (inl here) = by_map m refl
    where
      by_map :
          (n : TextMap (List ℕ))
          → m ≡ n
          → lines_to_send objects filename n
            ≡ some (enabled_lines objects (of_file objects filename refs))
      by_map [] e = absurd (here (ap (of_file objects filename) (refs-nil e)))
      by_map (x ∷ n) e =
          ap (Option.map (enabled_lines objects))
            (ap (find_entry filename) (sym e) ∙ find-of_file filename here)
  lines-of_file filename (inr empty) =
      ap (lines_to_send objects filename) (map-nil empty)
      ∙ ap (λ qs. some (enabled_lines objects (of_file objects filename qs))) (sym empty)

  pub lines-none :
      (filename : Text)
      → of_file objects filename refs ≡ []
      → refs ≢ []
      → lines_to_send objects filename m ≡ none
  unfolding lines_to_send
  lines-none filename gone others = by_map m refl
    where
      by_map : (n : TextMap (List ℕ)) → m ≡ n → lines_to_send objects filename n ≡ none
      by_map [] e = absurd (others (refs-nil e))
      by_map (x ∷ n) e =
          ap (Option.map (enabled_lines objects))
            (ap (find_entry filename) (sym e) ∙ find-none-of_file filename gone)

pub nil-cases : (refs : List ℕ) → (refs ≡ []) ⊎ (refs ≢ [])
nil-cases [] = inl refl
nil-cases (r ∷ refs) = inr (λ e. cc)

module _ (host : Host) where
  update_dap-on :
      (filename : Text) (s : State)
      → is_on s ≡ true
      → update_dap host filename s
        ≡ Option.map
            (λ lines. send_lines host filename lines s)
            (lines_to_send s.objects filename s.file_map)
  unfolding update_dap
  update_dap-on filename s on =
      ap
        (λ b.
          if b
          then Option.map (λ lines. send_lines host filename lines s)
              (lines_to_send s.objects filename s.file_map)
          else some s)
        on

  pub update_dap-off :
      (filename : Text) (s : State) → is_on s ≡ false → update_dap host filename s ≡ some s
  unfolding update_dap
  update_dap-off filename s off =
      ap
        (λ b.
          if b
          then Option.map (λ lines. send_lines host filename lines s)
              (lines_to_send s.objects filename s.file_map)
          else some s)
        off

  pub update_dap-sends :
      (filename : Text) (s : State)
      → IsIndexed host s
      → is_on s ≡ true
      → (of_file s.objects filename s.breakpoints ≢ []) ⊎ (s.breakpoints ≡ [])
      → update_dap host filename s
        ≡ some (
            send_lines host filename
              (enabled_lines s.objects (of_file s.objects filename s.breakpoints))
              s)
  update_dap-sends filename s h on here =
      update_dap-on filename s on
      ∙ ap (Option.map (λ lines. send_lines host filename lines s))
          (lines-of_file host h filename here)

  -- In a session that is stopped, UpdateDAPSetBreakpointsByFileName changes nothing but the client,
  -- the names it was told and the trace, and its one call of the client sets, for the name of the
  -- file, the lines of exactly the enabled breakpoints of the file, in their order, where the file
  -- map is an index of the breakpoints and the file has one, or no file has.
  pub update_dap_lem :
      (filename : Text) (s : State)
      → IsIndexed host s
      → is_on s ≡ true
      → (of_file s.objects filename s.breakpoints ≢ []) ⊎ (s.breakpoints ≡ [])
      → (names : TextMap Text) × (update_dap host filename s
          ≡ some (
              let r =
                perform host.library
                  (set_breakpoints_file (dap_name host s.debuggee filename) (
                    map (line_of s.objects) (
                      filter
                        (λ p. DapBreakpoint.enabled (s.objects p))
                        (of_file s.objects filename s.breakpoints))))
                  s.client in
              record s { dap_names = names; client = r.0; trace = s.trace ++ map told r.1 }))
  unfolding send_lines tell
  update_dap_lem filename s h on here = (
    note_name host filename (dap_name host s.debuggee filename) (find_entry filename s.dap_names)
        s.dap_names,
    update_dap-sends filename s h on here
        ∙ ap (λ lines. some (send_lines host filename lines s))
            (enabled_lines-filter s.objects (of_file s.objects filename s.breakpoints)),
  )

  update_dap-none :
      (filename : Text) (s : State)
      → IsIndexed host s
      → (update_dap host filename s ≡ none) ↔ (
          (is_on s ≡ true) × (of_file s.objects filename s.breakpoints ≡ []) × (s.breakpoints ≢ []))
  update_dap-none filename s h = (
    λ e.
        by_flags e (Bool-cases (is_on s)) (nil-cases (of_file s.objects filename s.breakpoints))
          (nil-cases s.breakpoints),
    λ (on, gone, others).
        update_dap-on filename s on
        ∙ ap (Option.map (λ lines. send_lines host filename lines s))
            (lines-none host h filename gone others),
  )
    where
      by_flags :
          update_dap host filename s ≡ none
          → (is_on s ≡ true) ⊎ (is_on s ≡ false)
          → (of_file s.objects filename s.breakpoints ≡ [])
            ⊎ (of_file s.objects filename s.breakpoints ≢ [])
          → (s.breakpoints ≡ []) ⊎ (s.breakpoints ≢ [])
          → (is_on s ≡ true)
            × (of_file s.objects filename s.breakpoints ≡ [])
            × (s.breakpoints ≢ [])
      by_flags e (inr off) gone others =
          absurd (none-ne-some (sym e ∙ update_dap-off filename s off))
      by_flags e (inl on) (inr here) others =
          absurd (none-ne-some (sym e ∙ update_dap-sends filename s h on (inl here)))
      by_flags e (inl on) (inl gone) (inl empty) =
          absurd (none-ne-some (sym e ∙ update_dap-sends filename s h on (inr empty)))
      by_flags e (inl on) (inl gone) (inr others) = (on, gone, others)

  -- Where the file map is an index of the breakpoints, DeleteBreakpoint of one of them reads through
  -- `end()` exactly in a session that is stopped, if it was the only breakpoint of its file and
  -- others are left.
  pub delete_breakpoint-none :
      (p : ℕ) (s : State)
      → IsIndexed host s
      → has_pointer p s.breakpoints ≡ true
      → (delete_breakpoint host p s ≡ none) ↔ (
          (is_on s ≡ true)
          × (of_file s.objects (s.objects p).filename (erase_pointer p s.breakpoints) ≡ [])
          × (erase_pointer p s.breakpoints ≢ []))
  unfolding delete_breakpoint delete_by_type get_location drop_object update_file_map
  delete_breakpoint-none p s h known =
      let f = (s.objects p).filename in
      let dropped = drop_object host f p s in
      let sound = All-has_pointer (IsSound host s.fresh s.objects) s.breakpoints p h.sound known in
      let same : delete_breakpoint host p s ≡ update_dap host f dropped =
        ap (λ b. if b then delete_by_type host (s.objects p).type p s else some s) known
        ∙ ap (λ type. delete_by_type host type p s) sound.1
        ∙ ap
            (λ type.
              let g = location_of type (s.objects p) in update_dap host g (drop_object host g p s))
            sound.1 in
      let (to, from) = update_dap-none f dropped (drop_object-IsIndexed host p s h known) in
      (λ e. to (sym same ∙ e), λ k. same ∙ from k)
