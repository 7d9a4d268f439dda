-- ===== src/Breakpoints/FileMap.antt =====
-- The std::maps of DBG_DAP_Breakpoints and `UpdateMapFileBreakPoints`
-- (src/DebugAdapterClient/DAP_Breakpoints.cpp).
use debugger_dap.Common.{
  ℕ, Bool, true, false, List, [], ◌∷◌, ◌++◌, Option, none, some, length, ◌==◌, if◌then◌else◌,
}
use debugger_dap.Common.Int.{ℤ, eq_ℤ}
use debugger_dap.Text.{Text, text_eq}
use debugger_dap.Breakpoints.State.{DapBreakpoint, Host, TextMap, State}

module _ {ℓ} {A : Type ℓ} where
  -- `find`
  unfoldable pub find_entry : Text → TextMap A → Option A
  find_entry key [] = none
  find_entry key ((k, v) ∷ m) = if text_eq k key then some v else find_entry key m

  -- `insert` of a key that is not there
  unfoldable pub insert_entry : (Text → Text → Bool) → Text → A → TextMap A → TextMap A
  insert_entry less key value [] = (key, value) ∷ []
  insert_entry less key value ((k, v) ∷ m) =
      let rest = insert_entry less key value m in
      if less key k then (key, value) ∷ (k, v) ∷ m else (k, v) ∷ rest

  -- `erase`: the keys of a map are different from one another.
  unfoldable pub erase_entry : Text → TextMap A → TextMap A
  erase_entry key [] = []
  erase_entry key ((k, v) ∷ m) =
      let rest = erase_entry key m in if text_eq k key then rest else (k, v) ∷ rest

  -- A value that is changed in its place.
  unfoldable pub replace_entry : Text → A → TextMap A → TextMap A
  replace_entry key value [] = []
  replace_entry key value ((k, v) ∷ m) =
      let rest = replace_entry key value m in
      if text_eq k key then (k, value) ∷ rest else (k, v) ∷ rest

module _ (objects : ℕ → DapBreakpoint) (line : ℤ) where
  -- The search for a breakpoint of the line in a container.
  unfoldable pub has_line : List ℕ → Bool
  has_line [] = false
  has_line (r ∷ rest) = if eq_ℤ (objects r).line line then true else has_line rest

  -- `erase` of the one that the search found
  unfoldable pub erase_line : List ℕ → List ℕ
  erase_line [] = []
  erase_line (r ∷ rest) =
      let kept = erase_line rest in if eq_ℤ (objects r).line line then rest else r ∷ kept

-- What `UpdateMapFileBreakPoints` does with the container of the file, or where there is none.
unfoldable pub with_container :
    (Text → Text → Bool)
    → (ℕ → DapBreakpoint)
    → Text
    → ℕ
    → Bool
    → Option (List ℕ)
    → TextMap (List ℕ)
    → TextMap (List ℕ)
unfolding insert_entry erase_entry replace_entry has_line erase_line
with_container less objects filename pointer true none m =
    insert_entry less filename (pointer ∷ []) m
with_container less objects filename pointer false none m = m
with_container less objects filename pointer true (some container) m =
    if has_line objects (objects pointer).line container
    then m
    else replace_entry filename (container ++ pointer ∷ []) m
with_container less objects filename pointer false (some container) m =
    if has_line objects (objects pointer).line container
    then if length container == 1
      then if length m == 1 then [] else erase_entry filename m
      else replace_entry filename (erase_line objects (objects pointer).line container) m
    else m

-- `UpdateMapFileBreakPoints`
unfoldable pub update_file_map : Host → Text → ℕ → Bool → State → State
unfolding with_container find_entry
update_file_map host filename pointer adding s = record s {
  file_map =
      with_container host.key_less s.objects filename pointer adding
        (find_entry filename s.file_map) s.file_map;
}
