-- ===== src/Breakpoints/Shifted.antt =====
-- The state after ShiftAllFileBreakpoints, where lines are added to a file.
use debugger_dap.Common.{
  ◌⊎◌, ℕ, ◌≡◌, ◌<◌, refl, ap, sym, ◌∙◌, true, false, ◌&&◌, List, [], ◌∷◌, some, ◌==◌, if◌then◌else◌,
  arith, Bool-cases, inl, inr, All, subst, ==_iff, if_both,
}
use debugger_dap.Common.Int.{ℤ, eq_ℤ, pos, leb_ℤ, ◌+ℤ◌, ◌≤ℤ◌, ◌<ℤ◌, +ℤ_parts}
use debugger_dap.Text.{Text, text_eq}
use debugger_dap.Text.Find.{text_eq_iff}
use debugger_dap.Breakpoints.State.{code, DapBreakpoint, TextMap, Host, State}
use debugger_dap.Breakpoints.Actions.{source_name}
use debugger_dap.Breakpoints.Shift.{is_behind, shifted, delete_all, shift_all_file_breakpoints}
use debugger_dap.Breakpoints.Index.{Apart, clash, in_file, of_file}
use debugger_dap.Breakpoints.Indexed.{IsSound, IsIndex, IsIndexed}
use debugger_dap.Breakpoints.Moved.{
  moved, after, rest-after, shift_loop-cut, after-Once, Apart-Once, All-known, moved_apart,
  filename-moved, line-moved, moved_line,
}

module _ (host : Host) (filename : Text) (start_line : ℤ) (n : ℕ) where
  abbrev new_place : DapBreakpoint → DapBreakpoint
  new_place b = moved (host.project_of filename) filename start_line n b

  module _ (objects objects' : ℕ → DapBreakpoint) where
    abbrev AreMoved : List ℕ → Type 0
    AreMoved refs = All (λ r. objects' r ≡ new_place (objects r)) refs

    in_file-moved :
        (f : Text) (r : ℕ)
        → objects' r ≡ new_place (objects r)
        → in_file objects' f r ≡ in_file objects f r
    in_file-moved f r e =
        ap (λ b. text_eq (DapBreakpoint.filename b) f) e
        ∙ ap (λ x. text_eq x f)
            (filename-moved (host.project_of filename) filename start_line n (objects r))

    of_file-moved :
        (f : Text) (refs : List ℕ)
        → AreMoved refs
        → of_file objects' f refs ≡ of_file objects f refs
    of_file-moved f [] h = refl
    of_file-moved f (r ∷ refs) h = rw (in_file-moved f r h.0, of_file-moved f refs h.1)

    IsSound-moved :
        (fresh r : ℕ)
        → objects' r ≡ new_place (objects r)
        → IsSound host fresh objects r
        → IsSound host fresh objects' r
    unfolding shifted
    IsSound-moved fresh r e h =
        subst
          (λ b.
            (r < fresh)
            × (DapBreakpoint.type b ≡ code)
            × (DapBreakpoint.project b ≡ host.project_of b.filename))
          (sym e)
          (if_both
            (λ b.
              (r < fresh)
              × (DapBreakpoint.type b ≡ code)
              × (DapBreakpoint.project b ≡ host.project_of b.filename))
            (is_behind (host.project_of filename) filename start_line (objects r)) h h)

    clash-moved :
        (fresh r q : ℕ)
        → objects' r ≡ new_place (objects r)
        → objects' q ≡ new_place (objects q)
        → IsSound host fresh objects r
        → IsSound host fresh objects q
        → clash objects r q ≡ false
        → clash objects' r q ≡ false
    clash-moved fresh r q e e' h h' apart =
        ap
          (λ b.
            text_eq (DapBreakpoint.filename b) (objects' q).filename
            && eq_ℤ (DapBreakpoint.line b) (objects' q).line)
          e
        ∙ ap
            (λ c.
              text_eq (new_place (objects r)).filename (DapBreakpoint.filename c)
              && eq_ℤ (new_place (objects r)).line (DapBreakpoint.line c))
            e'
        ∙ moved_apart (host.project_of filename) filename start_line n (objects r) (objects q)
            (λ same. h.2 ∙ ap host.project_of same ∙ sym h'.2) apart

    from-moved :
        (fresh r : ℕ) (refs : List ℕ)
        → objects' r ≡ new_place (objects r)
        → AreMoved refs
        → IsSound host fresh objects r
        → All (IsSound host fresh objects) refs
        → All (λ q. clash objects r q ≡ false) refs
        → All (λ q. clash objects' r q ≡ false) refs
    from-moved fresh r [] e es h hs apart = tt
    from-moved fresh r (q ∷ refs) e es h hs apart =
        (clash-moved fresh r q e es.0 h hs.0 apart.0, from-moved fresh r refs e es.1 h hs.1 apart.1)

    Apart-moved :
        (fresh : ℕ) (refs : List ℕ)
        → AreMoved refs
        → All (IsSound host fresh objects) refs
        → Apart objects refs
        → Apart objects' refs
    Apart-moved fresh [] es hs apart = tt
    Apart-moved fresh (r ∷ refs) es hs apart = (
      from-moved fresh r refs es.0 es.1 hs.0 hs.1 apart.0,
      Apart-moved fresh refs es.1 hs.1 apart.1,
    )

    sounds-moved :
        (fresh : ℕ) (refs : List ℕ)
        → AreMoved refs
        → All (IsSound host fresh objects) refs
        → All (IsSound host fresh objects') refs
    sounds-moved fresh [] es hs = tt
    sounds-moved fresh (r ∷ refs) es hs =
        (IsSound-moved fresh r es.0 hs.0, sounds-moved fresh refs es.1 hs.1)

    moved-IsIndex :
        (fresh : ℕ) (refs : List ℕ) (m : TextMap (List ℕ))
        → AreMoved refs
        → IsIndex host objects fresh refs m
        → IsIndex host objects' fresh refs m
    moved-IsIndex fresh refs m es h = record {
      indexes = λ f. h.indexes f ∙ sym (of_file-moved f refs es);
      filled = h.filled;
      apart = Apart-moved fresh refs es h.sound h.apart;
      sound = sounds-moved fresh refs es h.sound;
    }

  -- The lines that were added hold no breakpoint of the file.
  abbrev pub IsFree : DapBreakpoint → Type 0
  IsFree b = b.filename ≡ filename → (b.line <ℤ start_line) ⊎ (start_line +ℤ pos n ≤ℤ b.line)

  free_line :
      (a : ℤ)
      → (moved_line (host.project_of filename) filename start_line n true true a <ℤ start_line)
        ⊎ (start_line +ℤ pos n
            ≤ℤ moved_line (host.project_of filename) filename start_line n true true a)
  free_line a = by_side (Bool-cases (leb_ℤ start_line a))
    where
      by_side :
          (leb_ℤ start_line a ≡ true) ⊎ (leb_ℤ start_line a ≡ false)
          → ((if leb_ℤ start_line a then a +ℤ pos n else a) <ℤ start_line)
            ⊎ (start_line +ℤ pos n ≤ℤ (if leb_ℤ start_line a then a +ℤ pos n else a))
      by_side (inl behind) =
          inr (ground (arith, behind, +ℤ_parts a (pos n), +ℤ_parts start_line (pos n)))
      by_side (inr before) = inl (ground (arith, before))

  moved-IsFree : (b : DapBreakpoint) → b.project ≡ host.project_of b.filename → IsFree (new_place b)
  moved-IsFree b owned named =
      let project = host.project_of filename in
      let own : b.filename ≡ filename =
        sym (filename-moved project filename start_line n b) ∙ named in
      let in_project : (b.project == project) ≡ true =
        (==_iff b.project project).1 (owned ∙ ap host.project_of own) in
      subst (λ l. (l <ℤ start_line) ⊎ (start_line +ℤ pos n ≤ℤ l))
        (sym (
          line-moved project filename start_line n b
          ∙ ap
              (λ t. moved_line project filename start_line n t (text_eq b.filename filename) b.line)
              in_project
          ∙ ap (λ t. moved_line project filename start_line n true t b.line)
              ((text_eq_iff b.filename filename).1 own)))
        (free_line b.line)

  frees :
      (objects objects' : ℕ → DapBreakpoint) (fresh : ℕ) (refs : List ℕ)
      → AreMoved objects objects' refs
      → All (IsSound host fresh objects) refs
      → All (λ r. IsFree (objects' r)) refs
  frees objects objects' fresh [] es hs = tt
  frees objects objects' fresh (r ∷ refs) es hs = (
    subst IsFree (sym es.0) (moved-IsFree (objects r) hs.0.2),
    frees objects objects' fresh refs es.1 hs.1,
  )

module _ (host : Host) where
  -- Where the file map is an index of the breakpoints, ShiftAllFileBreakpoints for n more lines
  -- returns the same breakpoints, still with such a map, and none of the breakpoints of the file
  -- that the name stands for is on one of the n lines from the first.
  pub shift_breakpoints-IsFree :
      (filename : Text) (start_line : ℤ) (n : ℕ) (s : State)
      → IsIndexed host s
      → (t : State) × (shift_all_file_breakpoints host filename start_line (pos n) s ≡ some t)
        × IsIndexed host t
        × (t.breakpoints ≡ s.breakpoints)
        × All
            (λ r. IsFree host (source_name filename s.dap_names) start_line n (t.objects r))
            t.breakpoints
  unfolding shift_all_file_breakpoints delete_all
  shift_breakpoints-IsFree filename start_line n s h =
      let file = source_name filename s.dap_names in
      let project = host.project_of file in
      let t = after project file start_line n s.breakpoints s in
      let kept = rest-after project file start_line n s.breakpoints s in
      let moves : AreMoved host file start_line n s.objects t.objects s.breakpoints =
        All-known project file start_line n
          (λ r. t.objects r ≡ new_place host file start_line n (s.objects r)) s.breakpoints
          (λ r known.
            after-Once project file start_line n s.breakpoints r s
              (Apart-Once project file start_line n s.objects s.breakpoints h.apart) known) in
      (
        t,
        ap (λ cut. delete_all host cut t)
            (shift_loop-cut project file start_line n s.breakpoints s),
        subst (λ k. IsIndex host t.objects k.0 k.1 k.2) (sym kept)
            (moved-IsIndex host file start_line n s.objects t.objects s.fresh s.breakpoints
              s.file_map moves h),
        ap (λ k. k.1) kept,
        subst (λ refs. All (λ r. IsFree host file start_line n (t.objects r)) refs)
            (ap (λ k. k.1) (sym kept))
            (frees host file start_line n s.objects t.objects s.fresh s.breakpoints moves h.sound),
      )
