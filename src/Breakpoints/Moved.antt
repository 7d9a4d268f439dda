-- ===== src/Breakpoints/Moved.antt =====
-- ShiftAllFileBreakpoints where lines are added to a file.
use debugger_dap.Common.{
  ◌⊎◌, ℕ, ◌≡◌, ◌≢◌, refl, ap, sym, ◌∙◌, Bool, true, false, ◌&&◌, List, [], ◌∷◌, ◌==◌, if◌then◌else◌,
  arith, Bool-cases, inl, inr, All, subst, ==_iff, if_both,
}
use debugger_dap.Common.Int.{ℤ, eq_ℤ, eq_ℤ_refl, pos, leb_ℤ, ◌+ℤ◌}
use debugger_dap.Text.{Text, text_eq}
use debugger_dap.Text.Find.{text_eq_iff, text_eq_refl}
use debugger_dap.Breakpoints.State.{DapBreakpoint, TextMap, State, set_object}
use debugger_dap.Breakpoints.Actions.{has_pointer}
use debugger_dap.Breakpoints.Shift.{is_behind, is_cut, shifted, shift_object, shift_loop}
use debugger_dap.Breakpoints.Index.{Apart, clash, All-has_pointer}
use debugger_dap.Breakpoints.Kept.{write_self, write_other}

module _ (project : ℕ) (filename : Text) (start_line : ℤ) (n : ℕ) where
  -- Where a breakpoint stands after the shift.
  abbrev pub moved : DapBreakpoint → DapBreakpoint
  moved b = if is_behind project filename start_line b then shifted (pos n) b else b

  not_cut : (b : DapBreakpoint) → is_cut start_line (pos n) b ≡ false
  unfolding is_cut
  not_cut b = ground arith

  shift_object-forward :
      (r : ℕ) (s : State)
      → shift_object project filename start_line (pos n) r s ≡ (
          if is_behind project filename start_line (s.objects r)
          then set_object s r (shifted (pos n) (s.objects r))
          else s)
  unfolding shift_object
  shift_object-forward r s =
      ap
        (λ c.
          if is_behind project filename start_line (s.objects r)
          then if c then s else set_object s r (shifted (pos n) (s.objects r))
          else s)
        (not_cut (s.objects r))

  shift_object_self :
      (r : ℕ) (s : State)
      → State.objects (shift_object project filename start_line (pos n) r s) r ≡ moved (s.objects r)
  unfolding set_object
  shift_object_self r s =
      ap (λ t. State.objects t r) (shift_object-forward r s)
      ∙ by_test (is_behind project filename start_line (s.objects r))
    where
      by_test :
          (b : Bool)
          → State.objects (if b then set_object s r (shifted (pos n) (s.objects r)) else s) r
            ≡ (if b then shifted (pos n) (s.objects r) else s.objects r)
      by_test true = write_self s.objects r (shifted (pos n) (s.objects r))
      by_test false = refl

  shift_object-other :
      (r q : ℕ) (s : State)
      → q ≢ r
      → State.objects (shift_object project filename start_line (pos n) r s) q ≡ s.objects q
  unfolding set_object
  shift_object-other r q s h =
      ap (λ t. State.objects t q) (shift_object-forward r s)
      ∙ by_test (is_behind project filename start_line (s.objects r))
    where
      by_test :
          (b : Bool)
          → State.objects (if b then set_object s r (shifted (pos n) (s.objects r)) else s) q
            ≡ s.objects q
      by_test true = write_other s.objects r q (shifted (pos n) (s.objects r)) h
      by_test false = refl

  abbrev pub Rest : Type 0
  Rest = ℕ × List ℕ × TextMap (List ℕ) × TextMap Text

  -- What the shift leaves alone.
  abbrev pub rest_of : State → Rest
  rest_of s = (s.fresh, s.breakpoints, s.file_map, s.dap_names)

  rest-shift_object :
      (r : ℕ) (s : State)
      → rest_of (shift_object project filename start_line (pos n) r s) ≡ rest_of s
  unfolding set_object
  rest-shift_object r s =
      ap rest_of (shift_object-forward r s)
      ∙ if_both (λ t. rest_of t ≡ rest_of s) (is_behind project filename start_line (s.objects r))
          refl refl

  abbrev pub after : List ℕ → State → State
  after refs s = (shift_loop project filename start_line (pos n) refs s).1

  pub shift_loop-cut :
      (refs : List ℕ) (s : State) → (shift_loop project filename start_line (pos n) refs s).0 ≡ []
  unfolding shift_loop
  shift_loop-cut [] s = refl
  shift_loop-cut (r ∷ refs) s =
      let t = shift_object project filename start_line (pos n) r s in
      let cut = (shift_loop project filename start_line (pos n) refs t).0 in
      let behind = is_behind project filename start_line (s.objects r) in
      ap (λ c. if behind && c then r ∷ cut else cut) (not_cut (s.objects r))
      ∙ drop_test behind cut
      ∙ shift_loop-cut refs t
    where
      drop_test : (b : Bool) (cut : List ℕ) → (if b && false then r ∷ cut else cut) ≡ cut
      drop_test true cut = refl
      drop_test false cut = refl

  pub rest-after : (refs : List ℕ) (s : State) → rest_of (after refs s) ≡ rest_of s
  unfolding shift_loop
  rest-after [] s = refl
  rest-after (r ∷ refs) s =
      rest-after refs (shift_object project filename start_line (pos n) r s) ∙ rest-shift_object r s

  after-other :
      (refs : List ℕ) (q : ℕ) (s : State)
      → has_pointer q refs ≡ false
      → State.objects (after refs s) q ≡ s.objects q
  unfolding shift_loop has_pointer
  after-other [] q s h = refl
  after-other (r ∷ refs) q s h =
      after-other refs q (shift_object project filename start_line (pos n) r s) (ground (arith, h))
      ∙ shift_object-other r q s (λ e. ground (arith, h, ==_iff r q))

  not_twice :
      (objects : ℕ → DapBreakpoint) (refs : List ℕ) (r : ℕ)
      → All (λ q. clash objects r q ≡ false) refs
      → has_pointer r refs ≡ false
  not_twice objects refs r h = elim (Bool-cases (has_pointer r refs)) [
    | inl twice ↦ absurd (
        ground (
          arith,
          All-has_pointer (λ q. clash objects r q ≡ false) refs r h twice,
          text_eq_refl (objects r).filename,
          eq_ℤ_refl (objects r).line,
        ))
    | inr once ↦ once
  ]

  abbrev pub Once : List ℕ → Type 0
  Once [] = Unit
  Once (r ∷ refs) = (has_pointer r refs ≡ false) × Once refs

  pub Apart-Once : (objects : ℕ → DapBreakpoint) (refs : List ℕ) → Apart objects refs → Once refs
  Apart-Once objects [] h = tt
  Apart-Once objects (r ∷ refs) h = (not_twice objects refs r h.0, Apart-Once objects refs h.1)

  -- Every breakpoint of the list is moved once.
  pub after-Once :
      (refs : List ℕ) (q : ℕ) (s : State)
      → Once refs
      → has_pointer q refs ≡ true
      → State.objects (after refs s) q ≡ moved (s.objects q)
  unfolding shift_loop has_pointer
  after-Once [] q s once known = cc
  after-Once (r ∷ refs) q s once known =
      let t = shift_object project filename start_line (pos n) r s in
      elim (Bool-cases (r == q)) [
        | inl here ↦
            subst (λ p. State.objects (after refs t) p ≡ moved (s.objects p)) ((==_iff r q).0 here)
              (after-other refs r t once.0 ∙ shift_object_self r s)
        | inr there ↦
            after-Once refs q t once.1 (ground (arith, known, there))
            ∙ ap moved (shift_object-other r q s (λ e. ground (arith, there, ==_iff r q)))
      ]

  pub All-known {ℓ} :
      (P : ℕ → Type ℓ) (refs : List ℕ) → ((r : ℕ) → has_pointer r refs ≡ true → P r) → All P refs
  unfolding has_pointer
  All-known P [] f = tt
  All-known P (r ∷ refs) f =
      (f r (ground (arith, ==_iff r r)), All-known P refs (λ q known. f q (ground (arith, known))))

  -- The line after the shift, of a breakpoint in the project and in the file or not.
  abbrev pub moved_line : Bool → Bool → ℤ → ℤ
  moved_line p f a = if p && (f && leb_ℤ start_line a) then a +ℤ pos n else a

  lines_apart :
      (p f : Bool) (a c : ℤ) → eq_ℤ a c ≡ false → eq_ℤ (moved_line p f a) (moved_line p f c) ≡ false
  unfolding ◌+ℤ◌
  lines_apart p f a c h = ground arith

  pub filename-moved : (b : DapBreakpoint) → (moved b).filename ≡ b.filename
  unfolding shifted
  filename-moved b =
      if_both (λ c. DapBreakpoint.filename c ≡ b.filename) (is_behind project filename start_line b)
        refl refl

  pub line-moved :
      (b : DapBreakpoint)
      → (moved b).line ≡ moved_line (b.project == project) (text_eq b.filename filename) b.line
  unfolding is_behind shifted
  line-moved b =
      by_test (b.project == project && (text_eq b.filename filename && leb_ℤ start_line b.line))
    where
      by_test :
          (t : Bool)
          → DapBreakpoint.line (if t then shifted (pos n) b else b)
            ≡ (if t then b.line +ℤ pos n else b.line)
      by_test true = refl
      by_test false = refl

  pub moved_apart :
      (b c : DapBreakpoint)
      → (b.filename ≡ c.filename → b.project ≡ c.project)
      → (text_eq b.filename c.filename && eq_ℤ b.line c.line) ≡ false
      → (text_eq (moved b).filename (moved c).filename && eq_ℤ (moved b).line (moved c).line)
        ≡ false
  moved_apart b c same_project h =
      rw (filename-moved b, filename-moved c, line-moved b, line-moved c)
        (by_file (Bool-cases (text_eq b.filename c.filename)))
    where
      by_file :
          (text_eq b.filename c.filename ≡ true) ⊎ (text_eq b.filename c.filename ≡ false)
          → (text_eq b.filename c.filename
              && eq_ℤ
                  (moved_line (b.project == project) (text_eq b.filename filename) b.line)
                  (moved_line (c.project == project) (text_eq c.filename filename) c.line))
            ≡ false
      by_file (inr apart) = ground (arith, apart)
      by_file (inl same) =
          let named = (text_eq_iff b.filename c.filename).0 same in
          let owned = same_project named in
          let distinct : eq_ℤ b.line c.line ≡ false = ground (arith, h, same) in
          ap
            (λ e.
              e
              && eq_ℤ (moved_line (b.project == project) (text_eq b.filename filename) b.line)
                  (moved_line (c.project == project) (text_eq c.filename filename) c.line))
            same
          ∙ ap
              (λ p.
                eq_ℤ (moved_line (b.project == project) (text_eq b.filename filename) b.line)
                  (moved_line (p == project) (text_eq c.filename filename) c.line))
              (sym owned)
          ∙ ap
              (λ f.
                eq_ℤ (moved_line (b.project == project) (text_eq b.filename filename) b.line)
                  (moved_line (b.project == project) (text_eq f filename) c.line))
              (sym named)
          ∙ lines_apart (b.project == project) (text_eq b.filename filename) b.line c.line distinct
