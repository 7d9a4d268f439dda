-- ===== src/Breakpoints/Indexed.antt =====
-- The state whose file map is an index of its breakpoints, and the steps that keep it.
use debugger_dap.Common.{
  ℕ, ◌≡◌, ◌<◌, ◌≤◌, ap, sym, ◌∙◌, true, false, List, [], ◌∷◌, ◌++◌, arith, All, All-append,
  All-mono,
}
use debugger_dap.Breakpoints.State.{code, DapBreakpoint, TextMap, Host, State}
use debugger_dap.Breakpoints.FileMap.{find_entry, with_container}
use debugger_dap.Breakpoints.Containers.{IsFilled, add-IsFilled, remove-IsFilled}
use debugger_dap.Breakpoints.Actions.{has_pointer, erase_pointer}
use debugger_dap.Breakpoints.Index.{
  Agree, Apart, Indexes, clash, add-Indexes, remove-Indexes, Apart-append, Apart-erase_pointer,
  Apart-agree, of_file-agree, All-erase_pointer,
}

module _ (host : Host) where
  -- A breakpoint of the code, that the store has, in the project of its file.
  abbrev pub IsSound : ℕ → (ℕ → DapBreakpoint) → ℕ → Type 0
  IsSound fresh objects r =
      (r < fresh)
      × ((objects r).type ≡ code)
      × ((objects r).project ≡ host.project_of (objects r).filename)

  -- The map is an index of the breakpoints of a list, which stand on lines of their own.
  pub record IsIndex (objects : ℕ → DapBreakpoint) (fresh : ℕ) (refs : List ℕ)
      (m : TextMap (List ℕ)) : Type 0 where
    pub indexes : Indexes objects m refs
    pub filled : IsFilled m
    pub apart : Apart objects refs
    pub sound : All (IsSound fresh objects) refs

  abbrev pub IsIndexed : State → Type 0
  IsIndexed s = IsIndex s.objects s.fresh s.breakpoints s.file_map

  IsSound-Agree :
      (fresh fresh' : ℕ) (objects objects' : ℕ → DapBreakpoint)
      → fresh ≤ fresh'
      → Agree fresh objects objects'
      → (r : ℕ) → IsSound fresh objects r
      → IsSound fresh' objects' r
  IsSound-Agree fresh fresh' objects objects' le agree r h = (
    omega (arith, h.0),
    ap (λ p. p.0) (agree r h.0) ∙ h.1,
    ap (λ p. p.1) (agree r h.0) ∙ h.2 ∙ ap (λ p. host.project_of p.2) (sym (agree r h.0)),
  )

  module _ {objects : ℕ → DapBreakpoint} {fresh : ℕ} {refs : List ℕ} {m : TextMap (List ℕ)}
      (h : IsIndex objects fresh refs m) where
    below : All (λ r. r < fresh) refs
    below = All-mono (IsSound fresh objects) (λ r. r < fresh) (λ r p. p.0) refs h.sound

    -- A store that agrees has the same index.
    pub Agree-IsIndex :
        (objects' : ℕ → DapBreakpoint) (fresh' : ℕ)
        → fresh ≤ fresh'
        → Agree fresh objects objects'
        → IsIndex objects' fresh' refs m
    Agree-IsIndex objects' fresh' le agree = record {
      indexes = λ f. h.indexes f ∙ sym (of_file-agree fresh objects objects' agree f refs below);
      filled = h.filled;
      apart = Apart-agree fresh objects objects' agree refs below h.apart;
      sound =
          All-mono (IsSound fresh objects) (IsSound fresh' objects')
            (IsSound-Agree fresh fresh' objects objects' le agree) refs h.sound;
    }

    pub add-IsIndex :
        (p : ℕ)
        → IsSound fresh objects p
        → All (λ q. clash objects q p ≡ false) refs
        → IsIndex objects fresh (refs ++ p ∷ []) (
            with_container host.key_less objects
              (objects p).filename
              p
              true
              (find_entry (objects p).filename m)
              m)
    add-IsIndex p sound k = record {
      indexes = add-Indexes objects host.key_less m refs p h.indexes k;
      filled = add-IsFilled host.key_less objects p (objects p).filename m h.filled;
      apart = Apart-append objects refs p h.apart k;
      sound = All-append (IsSound fresh objects) refs (p ∷ []) h.sound (sound, tt);
    }

    pub remove-IsIndex :
        (p : ℕ)
        → has_pointer p refs ≡ true
        → IsIndex objects fresh (erase_pointer p refs) (
            with_container host.key_less objects
              (objects p).filename
              p
              false
              (find_entry (objects p).filename m)
              m)
    remove-IsIndex p e = record {
      indexes = remove-Indexes objects host.key_less m refs p h.indexes h.apart e;
      filled = remove-IsFilled host.key_less objects p (objects p).filename m h.filled;
      apart = Apart-erase_pointer objects refs p h.apart;
      sound = All-erase_pointer (IsSound fresh objects) refs p h.sound;
    }
