-- ===== src/Breakpoints/Added.antt =====
-- AddBreakpoint returns a breakpoint, and where that stands.
use mathlib.Core.Option
use debugger_dap.Common.{
  ◌⊎◌, ℕ, ◌+◌, ◌≡◌, ◌≢◌, ◌≤◌, refl, ap, sym, ◌∙◌, Bool, true, false, List, [], ◌∷◌, ◌++◌, Option,
  none, some, if◌then◌else◌, arith, Bool-cases, inl, inr, ==_iff, find?, length, length-append,
}
use debugger_dap.Common.Int.{ℤ, eq_ℤ_eq}
use debugger_dap.Text.{Text}
use debugger_dap.Text.Find.{text_eq_iff, text_eq_refl}
use debugger_dap.Breakpoints.State.{DapBreakpoint, Host, State, set_object, placed, minus_one}
use debugger_dap.Breakpoints.FileMap.{update_file_map}
use debugger_dap.Breakpoints.Update.{update_dap}
use debugger_dap.Breakpoints.Actions.{
  has_pointer, is_at, find_breakpoint, enable_object, update_found, push_new, by_place, by_number,
  update_or_add, add_breakpoint, source_name, same,
}
use debugger_dap.Breakpoints.Index.{of_file}
use debugger_dap.Breakpoints.Indexed.{IsIndexed}
use debugger_dap.Breakpoints.Kept.{
  bones, bones-update_dap, write_self, set_object-IsIndexed, push_new-IsIndexed,
}
use debugger_dap.Breakpoints.Told.{is_on, update_dap-sends, update_dap-off}

has_pointer_last : (refs : List ℕ) (p : ℕ) → has_pointer p (refs ++ p ∷ []) ≡ true
unfolding has_pointer
has_pointer_last [] p = ground (arith, ==_iff p p)
has_pointer_last (r ∷ refs) p = ground (arith, has_pointer_last refs p)

of_file-ne-nil :
    (objects : ℕ → DapBreakpoint) (refs : List ℕ) (p : ℕ)
    → has_pointer p refs ≡ true
    → of_file objects (objects p).filename refs ≢ []
unfolding has_pointer
of_file-ne-nil objects [] p h = cc
of_file-ne-nil objects (r ∷ refs) p h =
    ground (arith, of_file-ne-nil objects refs p, ==_iff r p, text_eq_refl (objects p).filename)

find?-some :
    (test : ℕ → Bool) (refs : List ℕ) (p : ℕ)
    → find? test refs ≡ some p
    → (has_pointer p refs ≡ true) × (test p ≡ true)
unfolding has_pointer
find?-some test [] p e = cc
find?-some test (r ∷ refs) p e = ground (arith, find?-some test refs p, ==_iff r p)

module _ (host : Host) where
  -- A breakpoint of the state, enabled and at the place.
  pub record StandsAt (filename : Text) (line : ℤ) (r : ℕ) (t : State) : Type 0 where
    pub known : has_pointer r t.breakpoints ≡ true
    pub in_file : (t.objects r).filename ≡ filename
    pub on_line : (t.objects r).line ≡ line
    pub is_enabled : (t.objects r).enabled ≡ true

  -- The debugger is told of a file that has a breakpoint, and the breakpoints stay.
  update_dap-returns :
      (p : ℕ) (s : State)
      → IsIndexed host s
      → has_pointer p s.breakpoints ≡ true
      → (t : State) × (update_dap host (s.objects p).filename s ≡ some t) × (bones t ≡ bones s)
  update_dap-returns p s h known = by_flags (Bool-cases (is_on s))
    where
      by_flags :
          (is_on s ≡ true) ⊎ (is_on s ≡ false)
          → (t : State) × (update_dap host (s.objects p).filename s ≡ some t) × (bones t ≡ bones s)
      by_flags (inl on) =
          let told =
            update_dap-sends host (s.objects p).filename s h on
              (inl (of_file-ne-nil s.objects s.breakpoints p known)) in
          (_, told, bones-update_dap host (s.objects p).filename s _ told)
      by_flags (inr off) = (s, update_dap-off host (s.objects p).filename s off, refl)

  bones-StandsAt :
      (filename : Text) (line : ℤ) (r : ℕ) (s t : State)
      → bones t ≡ bones s
      → StandsAt filename line r s
      → StandsAt filename line r t
  bones-StandsAt filename line r s t e h = record {
    known = ap (λ b. has_pointer r b.2) e ∙ h.known;
    in_file = ap (λ b. (b.0 r).filename) e ∙ h.in_file;
    on_line = ap (λ b. (b.0 r).line) e ∙ h.on_line;
    is_enabled = ap (λ b. (b.0 r).enabled) e ∙ h.is_enabled;
  }

  -- Where the debugger is told of the file of a breakpoint that stands in its place.
  told-StandsAt :
      (filename : Text) (line : ℤ) (r : ℕ) (s : State)
      → IsIndexed host s
      → StandsAt filename line r s
      → (t : State) × (update_dap host filename s ≡ some t)
        × StandsAt filename line r t
        × (length t.breakpoints ≡ length s.breakpoints)
  told-StandsAt filename line r s h at =
      let (t, told, kept) = update_dap-returns r s h at.known in
      (
        t,
        ap (λ f. update_dap host f s) (sym at.in_file) ∙ told,
        bones-StandsAt filename line r s t kept at,
        ap (λ b. length b.2) kept,
      )

  add_found :
      (filename : Text) (line : ℤ) (r : ℕ) (s : State)
      → IsIndexed host s
      → has_pointer r s.breakpoints ≡ true
      → is_at (host.project_of filename) filename line (s.objects r) ≡ true
      → (t : State) × (update_found host filename true minus_one r s ≡ some t)
        × StandsAt filename line r t
        × (length t.breakpoints ≤ length s.breakpoints + 1)
  unfolding update_found enable_object is_at set_object
  add_found filename line r s h known at =
      let b = s.objects r in
      let named : b.filename ≡ filename =
        (text_eq_iff b.filename filename).0 (ground (arith, at)) in
      let lined : b.line ≡ line = eq_ℤ_eq b.line line (ground (arith, at)) in
      elim (Bool-cases b.enabled) [
        | inl on ↦ (
          s,
          ap
              (λ e.
                if same e true
                then some s
                else update_dap host filename (set_object s r (record b { enabled = true })))
              on,
          record { known = known; in_file = named; on_line = lined; is_enabled = on },
          omega arith,
        )
        | inr off ↦
            let changed : DapBreakpoint = record b { enabled = true } in
            let self = write_self s.objects r changed in
            let (t, told, stands, size) =
              told-StandsAt filename line r (set_object s r changed)
                (set_object-IsIndexed host r changed s h refl)
                (record {
                  known = known;
                  in_file = ap (λ x. x.filename) self ∙ named;
                  on_line = ap (λ x. x.line) self ∙ lined;
                  is_enabled = ap (λ x. x.enabled) self;
                }) in
            (
              t,
              ap
                    (λ e.
                      if same e true
                      then some s
                      else update_dap host filename (set_object s r changed))
                    off
                  ∙ told,
              stands,
              omega (arith, size),
            )
      ]

  add_new :
      (filename : Text) (line : ℤ) (s : State)
      → IsIndexed host s
      → find_breakpoint (host.project_of filename) filename line s ≡ none
      → (t : State) × (update_dap host filename (push_new host filename line minus_one s) ≡ some t)
        × StandsAt filename line s.fresh t
        × (length t.breakpoints ≤ length s.breakpoints + 1)
  unfolding push_new set_object update_file_map placed
  add_new filename line s h e =
      let b = placed (host.project_of filename) filename line minus_one in
      let self = write_self s.objects s.fresh b in
      let (t, told, stands, size) =
        told-StandsAt filename line s.fresh (push_new host filename line minus_one s)
          (push_new-IsIndexed host filename line minus_one s h e)
          (record {
            known = has_pointer_last s.breakpoints s.fresh;
            in_file = ap (λ x. x.filename) self;
            on_line = ap (λ x. x.line) self;
            is_enabled = ap (λ x. x.enabled) self;
          }) in
      (t, told, stands, omega (arith, size, length-append s.breakpoints (s.fresh ∷ [])))

  -- Where the file map is an index of the breakpoints, AddBreakpoint returns an enabled breakpoint of
  -- the state at the line of the file that the name stands for, and the state has at most one
  -- breakpoint more.
  pub add_breakpoint-StandsAt :
      (filename : Text) (line : ℤ) (s : State)
      → IsIndexed host s
      → (r : ℕ) × (t : State) × (add_breakpoint host filename line s ≡ some (r, t))
        × StandsAt (source_name filename s.dap_names) line r t
        × (length t.breakpoints ≤ length s.breakpoints + 1)
  unfolding add_breakpoint update_or_add by_number by_place
  add_breakpoint-StandsAt filename line s h =
      by_find
        (find_breakpoint (host.project_of (source_name filename s.dap_names))
          (source_name filename s.dap_names) line s)
        refl
    where
      by_find :
          (o : Option ℕ)
          → find_breakpoint
              (host.project_of (source_name filename s.dap_names))
              (source_name filename s.dap_names)
              line
              s
            ≡ o
          → (r : ℕ) × (t : State) × (by_place host
                (source_name filename s.dap_names)
                line
                true
                minus_one
                o
                s
              ≡ some (r, t))
            × StandsAt (source_name filename s.dap_names) line r t
            × (length t.breakpoints ≤ length s.breakpoints + 1)
      by_find none e =
          let (t, made, stands, size) = add_new (source_name filename s.dap_names) line s h e in
          (s.fresh, t, ap (Option.map (λ u. (s.fresh, u))) made, stands, size)
      by_find (some r) e =
          let file = source_name filename s.dap_names in
          let (known, at) =
            find?-some (λ q. is_at (host.project_of file) file line (s.objects q)) s.breakpoints r
              e in
          let (t, made, stands, size) = add_found file line r s h known at in
          (r, t, ap (Option.map (λ u. (r, u))) made, stands, size)
