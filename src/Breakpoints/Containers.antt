-- ===== src/Breakpoints/Containers.antt =====
-- The container of a file after `UpdateMapFileBreakPoints`.
use debugger_dap.Common.{
  ℕ, ◌≡◌, ◌≢◌, refl, ap, ◌∙◌, Bool, true, false, List, [], ◌∷◌, ◌++◌, Option, none, some, length,
  ◌==◌, if◌then◌else◌, arith, ==_iff,
}
use debugger_dap.Common.Int.{ℤ}
use debugger_dap.Text.{Text, text_eq}
use debugger_dap.Breakpoints.State.{DapBreakpoint, TextMap}
use debugger_dap.Breakpoints.FileMap.{find_entry, has_line, erase_line, with_container}
use debugger_dap.Breakpoints.Entries.{
  find_entry-insert_entry, find_entry-erase_entry, find_entry-replace_entry, find_entry-single,
  find_entry-key,
}

-- The breakpoints of a file, none where the map does not know it.
abbrev pub or_nil : Option (List ℕ) → List ℕ
or_nil none = []
or_nil (some container) = container

abbrev pub container : Text → TextMap (List ℕ) → List ℕ
container filename m = or_nil (find_entry filename m)

-- No file has an empty container.
abbrev pub IsFilled : TextMap (List ℕ) → Type 0
IsFilled m = (filename : Text) → find_entry filename m ≢ some []

module _ (less : Text → Text → Bool) (objects : ℕ → DapBreakpoint) (pointer : ℕ) where
  abbrev own_line : ℤ
  own_line = (objects pointer).line

  -- The container of a file to which a breakpoint is added.
  abbrev pub added : List ℕ → List ℕ
  added refs = if has_line objects own_line refs then refs else refs ++ pointer ∷ []

  -- The container of a file from which a breakpoint is removed.
  abbrev pub removed : List ℕ → List ℕ
  removed refs = if has_line objects own_line refs then erase_line objects own_line refs else refs

  add_entry :
      (filename j : Text) (o : Option (List ℕ)) (m : TextMap (List ℕ))
      → find_entry filename m ≡ o
      → find_entry j (with_container less objects filename pointer true o m)
        ≡ (if text_eq filename j then some (added (or_nil o)) else find_entry j m)
  unfolding with_container has_line
  add_entry filename j none m h = find_entry-insert_entry less filename j (pointer ∷ []) m h
  add_entry filename j (some refs) m h = ground (
    arith,
    find_entry-replace_entry filename j (refs ++ pointer ∷ []) m,
    find_entry-key filename j m,
  )

  -- What is left under the file itself.
  abbrev rest_of : List ℕ → Option (List ℕ)
  rest_of refs =
      if has_line objects own_line refs
      then if length refs == 1 then none else some (erase_line objects own_line refs)
      else some refs

  remove_entry :
      (filename j : Text) (refs : List ℕ) (m : TextMap (List ℕ))
      → find_entry filename m ≡ some refs
      → find_entry j (with_container less objects filename pointer false (some refs) m)
        ≡ (if text_eq filename j then rest_of refs else find_entry j m)
  unfolding with_container find_entry
  remove_entry filename j refs m h = ground (
    arith,
    find_entry-replace_entry filename j (erase_line objects own_line refs) m,
    find_entry-erase_entry filename j m,
    find_entry-single filename j refs m,
    find_entry-key filename j m,
    ==_iff (length m) 1,
  )

  erase_single :
      (refs : List ℕ)
      → has_line objects own_line refs ≡ true
      → length refs ≡ 1
      → erase_line objects own_line refs ≡ []
  unfolding has_line erase_line
  erase_single [] h e = refl
  erase_single (r ∷ []) h e = ground arith
  erase_single (r ∷ q ∷ refs) h e = absurd (omega arith)

  rest_of-removed : (refs : List ℕ) → or_nil (rest_of refs) ≡ removed refs
  rest_of-removed refs = ground (arith, erase_single refs, ==_iff (length refs) 1)

  pub container-add :
      (filename j : Text) (m : TextMap (List ℕ))
      → container j (with_container less objects filename pointer true (find_entry filename m) m)
        ≡ (if text_eq filename j then added (container filename m) else container j m)
  container-add filename j m =
      ap or_nil (add_entry filename j (find_entry filename m) m refl) ∙ spread (text_eq filename j)
    where
      spread :
          (b : Bool)
          → or_nil (if b then some (added (container filename m)) else find_entry j m)
            ≡ (if b then added (container filename m) else container j m)
      spread true = refl
      spread false = refl

  remove_container :
      (filename j : Text) (o : Option (List ℕ)) (m : TextMap (List ℕ))
      → find_entry filename m ≡ o
      → container j (with_container less objects filename pointer false o m)
        ≡ (if text_eq filename j then removed (or_nil o) else container j m)
  unfolding with_container has_line
  remove_container filename j none m h = ground (arith, find_entry-key filename j m)
  remove_container filename j (some refs) m h =
      ap or_nil (remove_entry filename j refs m h) ∙ spread (text_eq filename j)
    where
      spread :
          (b : Bool)
          → or_nil (if b then rest_of refs else find_entry j m)
            ≡ (if b then removed refs else container j m)
      spread true = rest_of-removed refs
      spread false = refl

  pub container-remove :
      (filename j : Text) (m : TextMap (List ℕ))
      → container j (with_container less objects filename pointer false (find_entry filename m) m)
        ≡ (if text_eq filename j then removed (container filename m) else container j m)
  container-remove filename j m = remove_container filename j (find_entry filename m) m refl

  added-ne-nil : (refs : List ℕ) → added refs ≢ []
  unfolding has_line
  added-ne-nil [] = ground arith
  added-ne-nil (r ∷ refs) = ground arith

  rest_of-ne-nil : (refs : List ℕ) → refs ≢ [] → rest_of refs ≢ some []
  unfolding erase_line
  rest_of-ne-nil [] h = absurd (h refl)
  rest_of-ne-nil (r ∷ []) h = ground arith
  rest_of-ne-nil (r ∷ q ∷ refs) h = ground arith

  pub add-IsFilled :
      (filename : Text) (m : TextMap (List ℕ))
      → IsFilled m
      → IsFilled (with_container less objects filename pointer true (find_entry filename m) m)
  add-IsFilled filename m filled j = ground (
    arith,
    add_entry filename j (find_entry filename m) m refl,
    added-ne-nil (container filename m),
    filled j,
  )

  remove_entry-IsFilled :
      (filename : Text) (o : Option (List ℕ)) (m : TextMap (List ℕ))
      → find_entry filename m ≡ o
      → IsFilled m
      → IsFilled (with_container less objects filename pointer false o m)
  unfolding with_container
  remove_entry-IsFilled filename none m h filled j = filled j
  remove_entry-IsFilled filename (some refs) m h filled j = ground (
    arith,
    remove_entry filename j refs m h,
    rest_of-ne-nil refs (λ e. filled filename (h ∙ ap some e)),
    filled j,
  )

  pub remove-IsFilled :
      (filename : Text) (m : TextMap (List ℕ))
      → IsFilled m
      → IsFilled (with_container less objects filename pointer false (find_entry filename m) m)
  remove-IsFilled filename m = remove_entry-IsFilled filename (find_entry filename m) m refl
