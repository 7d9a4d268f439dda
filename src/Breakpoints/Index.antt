-- ===== src/Breakpoints/Index.antt =====
-- The file map as an index of `m_breakpoints`: what `UpdateMapFileBreakPoints` makes of it.
use debugger_dap.Common.{
  if_both, ℕ, ◌≡◌, ◌<◌, refl, ap, ◌∙◌, Bool, true, false, ◌&&◌, List, [], ◌∷◌, ◌++◌, ◌==◌,
  if◌then◌else◌, arith, Bool-cases, inl, inr, ==_iff, append-nil, subst, filter, All, All-append,
}
use debugger_dap.Common.Int.{ℤ, eq_ℤ, eq_ℤ_refl}
use debugger_dap.Text.{Text, text_eq}
use debugger_dap.Text.Find.{text_eq_iff, text_eq_refl}
use debugger_dap.Breakpoints.State.{BreakpointType, DapBreakpoint, TextMap}
use debugger_dap.Breakpoints.FileMap.{find_entry, has_line, erase_line, with_container}
use debugger_dap.Breakpoints.Containers.{container, added, removed, container-add, container-remove}
use debugger_dap.Breakpoints.Actions.{has_pointer, erase_pointer}

-- Where a breakpoint stands, and what it is.
abbrev pub Place : Type 0
Place = BreakpointType × ℕ × Text × ℤ

abbrev pub place : DapBreakpoint → Place
place b = (b.type, b.project, b.filename, b.line)

-- Two stores have the breakpoints of the pointers below a number at the same places.
abbrev pub Agree : ℕ → (ℕ → DapBreakpoint) → (ℕ → DapBreakpoint) → Type 0
Agree fresh objects objects' = (r : ℕ) → r < fresh → place (objects' r) ≡ place (objects r)

pub All-has_pointer {ℓ} :
    (P : ℕ → Type ℓ) (refs : List ℕ) (p : ℕ) → All P refs → has_pointer p refs ≡ true → P p
unfolding has_pointer
All-has_pointer P [] p h k = cc
All-has_pointer P (r ∷ refs) p h k = elim (Bool-cases (r == p)) [
  | inl here ↦ subst P ((==_iff r p).0 here) h.0
  | inr there ↦ All-has_pointer P refs p h.1 (ground (arith, k, there))
]

pub All-erase_pointer {ℓ} :
    (P : ℕ → Type ℓ) (refs : List ℕ) (p : ℕ) → All P refs → All P (erase_pointer p refs)
unfolding erase_pointer
All-erase_pointer P [] p h = tt
All-erase_pointer P (r ∷ refs) p h =
    if_both (All P) (r == p) h.1 (h.0, All-erase_pointer P refs p h.1)

module _ (objects : ℕ → DapBreakpoint) where
  abbrev pub in_file : Text → ℕ → Bool
  in_file filename r = text_eq (objects r).filename filename

  -- The breakpoints of a file, in the order of the container.
  abbrev pub of_file : Text → List ℕ → List ℕ
  of_file filename refs = filter (in_file filename) refs

  -- Two breakpoints on one line of one file.
  abbrev pub clash : ℕ → ℕ → Bool
  clash r q =
      text_eq (objects r).filename (objects q).filename && eq_ℤ (objects r).line (objects q).line

  -- No two breakpoints stand on one line.
  abbrev pub Apart : List ℕ → Type 0
  Apart [] = Unit
  Apart (r ∷ refs) = All (λ q. clash r q ≡ false) refs × Apart refs

  -- The map has the breakpoints of each file.
  abbrev pub Indexes : TextMap (List ℕ) → List ℕ → Type 0
  Indexes m refs = (filename : Text) → container filename m ≡ of_file filename refs

  pub of_file-append :
      (filename : Text) (refs : List ℕ) (p : ℕ)
      → of_file filename (refs ++ p ∷ [])
        ≡ of_file filename refs ++ (if in_file filename p then p ∷ [] else [])
  of_file-append filename [] p = ground arith
  of_file-append filename (r ∷ refs) p = ground (arith, of_file-append filename refs p)

  pub Apart-append :
      (refs : List ℕ) (p : ℕ)
      → Apart refs
      → All (λ q. clash q p ≡ false) refs
      → Apart (refs ++ p ∷ [])
  Apart-append [] p h k = (tt, tt)
  Apart-append (r ∷ refs) p h k =
      (All-append (λ q. clash r q ≡ false) refs (p ∷ []) h.0 (k.0, tt), Apart-append refs p h.1 k.1)

  no_line :
      (refs : List ℕ) (p : ℕ)
      → All (λ q. clash q p ≡ false) refs
      → has_line objects (objects p).line (of_file (objects p).filename refs) ≡ false
  unfolding has_line
  no_line [] p h = refl
  no_line (r ∷ refs) p h = ground (arith, no_line refs p h.1, h.0)

  pub add-Indexes :
      (less : Text → Text → Bool) (m : TextMap (List ℕ)) (refs : List ℕ) (p : ℕ)
      → Indexes m refs
      → All (λ q. clash q p ≡ false) refs
      → Indexes
          (with_container less objects
            (objects p).filename
            p
            true
            (find_entry (objects p).filename m)
            m)
          (refs ++ p ∷ [])
  add-Indexes less m refs p h k filename =
      container-add less objects p (objects p).filename filename m
      ∙ elim (Bool-cases (text_eq (objects p).filename filename)) [
        | inl same ↦
            subst
              (λ f.
                (if text_eq (objects p).filename f
                  then added less objects p (container (objects p).filename m)
                  else container f m)
                ≡ of_file f (refs ++ p ∷ []))
              ((text_eq_iff (objects p).filename filename).0 same)
              (rw (
                text_eq_refl (objects p).filename,
                h (objects p).filename,
                no_line refs p k,
                of_file-append (objects p).filename refs p,
                text_eq_refl (objects p).filename,
              ))
        | inr other ↦ rw (other, of_file-append filename refs p, other, append-nil) (h filename)
      ]

  -- The breakpoint of the line is found, in its file, and no other.
  erase_own :
      (refs : List ℕ) (p : ℕ)
      → Apart refs
      → has_pointer p refs ≡ true
      → (has_line objects (objects p).line (of_file (objects p).filename refs) ≡ true)
        × (erase_line objects (objects p).line (of_file (objects p).filename refs)
            ≡ of_file (objects p).filename (erase_pointer p refs))
  unfolding has_line erase_line has_pointer erase_pointer
  erase_own [] p h k = cc
  erase_own (r ∷ refs) p h k = elim (Bool-cases (r == p)) [
    | inl here ↦
        ground (arith, ==_iff r p, text_eq_refl (objects p).filename, eq_ℤ_refl (objects p).line)
    | inr there ↦
        ground (arith, erase_own refs p h.1, All-has_pointer (λ q. clash r q ≡ false) refs p h.0)
  ]

  -- The other files keep theirs.
  erase_other :
      (refs : List ℕ) (p : ℕ) (filename : Text)
      → text_eq (objects p).filename filename ≡ false
      → of_file filename (erase_pointer p refs) ≡ of_file filename refs
  unfolding erase_pointer
  erase_other [] p filename h = refl
  erase_other (r ∷ refs) p filename h = ground (arith, erase_other refs p filename h, ==_iff r p)

  pub remove-Indexes :
      (less : Text → Text → Bool) (m : TextMap (List ℕ)) (refs : List ℕ) (p : ℕ)
      → Indexes m refs
      → Apart refs
      → has_pointer p refs ≡ true
      → Indexes
          (with_container less objects
            (objects p).filename
            p
            false
            (find_entry (objects p).filename m)
            m)
          (erase_pointer p refs)
  remove-Indexes less m refs p h k e filename =
      let (found, erased) = erase_own refs p k e in
      container-remove less objects p (objects p).filename filename m
      ∙ elim (Bool-cases (text_eq (objects p).filename filename)) [
        | inl same ↦
            subst
              (λ f.
                (if text_eq (objects p).filename f
                  then removed less objects p (container (objects p).filename m)
                  else container f m)
                ≡ of_file f (erase_pointer p refs))
              ((text_eq_iff (objects p).filename filename).0 same)
              (rw (text_eq_refl (objects p).filename, h (objects p).filename, found) erased)
        | inr other ↦ rw (other, erase_other refs p filename other) (h filename)
      ]

  pub Apart-erase_pointer : (refs : List ℕ) (p : ℕ) → Apart refs → Apart (erase_pointer p refs)
  unfolding erase_pointer
  Apart-erase_pointer [] p h = tt
  Apart-erase_pointer (r ∷ refs) p h =
      if_both Apart (r == p) h.1
        (All-erase_pointer (λ q. clash r q ≡ false) refs p h.0, Apart-erase_pointer refs p h.1)

-- A store that agrees has the same files and the same clashes.
module _ (fresh : ℕ) (objects objects' : ℕ → DapBreakpoint)
    (agree : Agree fresh objects objects') where
  pub in_file-agree :
      (filename : Text) (r : ℕ)
      → r < fresh
      → in_file objects' filename r ≡ in_file objects filename r
  in_file-agree filename r h = ap (λ p. text_eq p.2 filename) (agree r h)

  pub of_file-agree :
      (filename : Text) (refs : List ℕ)
      → All (λ r. r < fresh) refs
      → of_file objects' filename refs ≡ of_file objects filename refs
  of_file-agree filename [] h = refl
  of_file-agree filename (r ∷ refs) h =
      rw (in_file-agree filename r h.0, of_file-agree filename refs h.1)

  clash-agree : (r q : ℕ) → r < fresh → q < fresh → clash objects' r q ≡ clash objects r q
  clash-agree r q h k =
      ap (λ p. text_eq p.2 (objects' q).filename && eq_ℤ p.3 (objects' q).line) (agree r h)
      ∙ ap (λ p. text_eq (objects r).filename p.2 && eq_ℤ (objects r).line p.3) (agree q k)

  apart_from :
      (r : ℕ) (refs : List ℕ)
      → r < fresh
      → All (λ q. q < fresh) refs
      → All (λ q. clash objects r q ≡ false) refs
      → All (λ q. clash objects' r q ≡ false) refs
  apart_from r [] h k a = tt
  apart_from r (q ∷ refs) h k a = (clash-agree r q h k.0 ∙ a.0, apart_from r refs h k.1 a.1)

  pub Apart-agree :
      (refs : List ℕ) → All (λ r. r < fresh) refs → Apart objects refs → Apart objects' refs
  Apart-agree [] h a = tt
  Apart-agree (r ∷ refs) h a = (apart_from r refs h.0 h.1 a.0, Apart-agree refs h.1 a.1)
