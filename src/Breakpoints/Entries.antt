-- ===== src/Breakpoints/Entries.antt =====
-- The maps of Breakpoints/FileMap: what is found after a change.
use mathlib.Core.Option
use debugger_dap.Common.{
  length, ap, sym, ◌≡◌, refl, Bool, true, [], ◌∷◌, none, some, if◌then◌else◌, arith,
}
use debugger_dap.Text.{Text, text_eq}
use debugger_dap.Text.Find.{text_eq_iff}
use debugger_dap.Breakpoints.State.{TextMap}
use debugger_dap.Breakpoints.FileMap.{find_entry, insert_entry, erase_entry, replace_entry}

module _ {ℓ} {A : Type ℓ} where
  pub find_entry-insert_entry :
      (less : Text → Text → Bool) (key j : Text) (v : A) (m : TextMap A)
      → find_entry key m ≡ none
      → find_entry j (insert_entry less key v m)
        ≡ (if text_eq key j then some v else find_entry j m)
  unfolding find_entry insert_entry
  find_entry-insert_entry less key j v [] h = refl
  find_entry-insert_entry less key j v ((k, w) ∷ m) h = ground (
    arith,
    text_eq_iff key j,
    text_eq_iff k j,
    text_eq_iff k key,
    find_entry-insert_entry less key j v m,
  )

  pub find_entry-erase_entry :
      (key j : Text) (m : TextMap A)
      → find_entry j (erase_entry key m) ≡ (if text_eq key j then none else find_entry j m)
  unfolding find_entry erase_entry
  find_entry-erase_entry key j [] = ground arith
  find_entry-erase_entry key j ((k, w) ∷ m) =
      ground (
        arith,
        text_eq_iff key j,
        text_eq_iff k j,
        text_eq_iff k key,
        find_entry-erase_entry key j m,
      )

  pub find_entry-replace_entry :
      (key j : Text) (v : A) (m : TextMap A)
      → find_entry j (replace_entry key v m)
        ≡ (if text_eq key j then Option.map (λ _. v) (find_entry j m) else find_entry j m)
  unfolding find_entry replace_entry
  find_entry-replace_entry key j v [] = ground arith
  find_entry-replace_entry key j v ((k, u) ∷ m) = ground (
    arith,
    text_eq_iff key j,
    text_eq_iff k j,
    text_eq_iff k key,
    find_entry-replace_entry key j v m,
  )

  -- A map of one key has nothing under another.
  pub find_entry-single :
      (key j : Text) (v : A) (m : TextMap A)
      → length m ≡ 1
      → find_entry key m ≡ some v
      → find_entry j m ≡ (if text_eq key j then some v else none)
  unfolding find_entry
  find_entry-single key j v [] e h = absurd (omega arith)
  find_entry-single key j v ((k, u) ∷ []) e h =
      ground (arith, text_eq_iff key j, text_eq_iff k j, text_eq_iff k key)
  find_entry-single key j v ((k, u) ∷ l ∷ m) e h = absurd (omega arith)

  pub find_entry-key :
      (key j : Text) (m : TextMap A) → text_eq key j ≡ true → find_entry j m ≡ find_entry key m
  find_entry-key key j m h = ap (λ k. find_entry k m) (sym ((text_eq_iff key j).0 h))
