-- ===== src/Breakpoints/Started.antt =====
-- A session that starts with no file map: CreateStartBreakpoints after DAPDebuggerResetData.
use mathlib.Core.Option
use debugger_dap.Common.{
  ◌⊎◌, ℕ, ◌≡◌, ◌≢◌, refl, ap, sym, ◌∙◌, true, false, List, [], ◌∷◌, ◌++◌, Option, none, some, arith,
  Bool-cases, inl, inr, All, All-mono, subst, append_assoc, append-nil,
}
use debugger_dap.Common.Int.{ℤ}
use debugger_dap.Text.{Text}
use debugger_dap.Breakpoints.State.{DapBreakpoint, TextMap, Host, State, startup}
use debugger_dap.Breakpoints.FileMap.{find_entry, update_file_map}
use debugger_dap.Text.Find.{text_eq_refl}
use debugger_dap.Breakpoints.Update.{update_dap}
use debugger_dap.Breakpoints.Actions.{reset_data}
use debugger_dap.Breakpoints.Events.{
  map_object, map_objects, update_files, create_start_breakpoints,
}
use debugger_dap.Breakpoints.Index.{Apart, clash, of_file}
use debugger_dap.Breakpoints.Indexed.{IsSound, IsIndex, IsIndexed, add-IsIndex}
use debugger_dap.Breakpoints.Kept.{bones, bones-update_dap, bones-IsIndexed}
use debugger_dap.Breakpoints.Told.{
  is_on, nil-cases, find-none-of_file, update_dap-sends, update_dap-off,
}
use debugger_dap.Breakpoints.Run.{empty-IsIndex}

-- `ToLong` reads the digits that `Format` writes.
abbrev pub ReadsLines : Host → Type 0
ReadsLines host = (n : ℤ) → host.to_long (host.format_int n) ≡ some n

-- A breakpoint of the second list clashes with none of the first.
Apart-middle :
    (objects : ℕ → DapBreakpoint) (done rest : List ℕ) (r : ℕ)
    → Apart objects (done ++ r ∷ rest)
    → All (λ q. clash objects q r ≡ false) done
Apart-middle objects [] rest r h = tt
Apart-middle objects (d ∷ done) rest r h =
    (middle (λ q. clash objects d q ≡ false) done rest r h.0, Apart-middle objects done rest r h.1)
  where
    middle : (P : ℕ → Type 0) (qs rest : List ℕ) (r : ℕ) → All P (qs ++ r ∷ rest) → P r
    middle P [] rest r h = h.0
    middle P (q ∷ qs) rest r h = middle P qs rest r h.1

keys_found {ℓ} : {A : Type ℓ} (m : TextMap A) → All (λ e. find_entry e.0 m ≢ none) m
unfolding find_entry
keys_found [] = tt
keys_found ((k, v) ∷ m) = (
  λ e. ground (arith, e, text_eq_refl k),
  All-mono (λ e. find_entry e.0 m ≢ none) (λ e. find_entry e.0 ((k, v) ∷ m) ≢ none)
      (λ e found missed. found (ground (arith, missed))) m (keys_found m),
)

-- What the loops over the breakpoints leave alone.
abbrev Others : Type 0
Others = (ℕ → DapBreakpoint) × ℕ × List ℕ × List ℕ × ℕ

abbrev others : State → Others
others s = (s.objects, s.fresh, s.breakpoints, s.temporary_breakpoints, s.flags)

module _ (host : Host) where
  others-map_object : (r : ℕ) (o : Option ℤ) (s : State) → others (map_object host r o s) ≡ others s
  unfolding map_object update_file_map
  others-map_object r none s = refl
  others-map_object r (some n) s = refl

  others-map_objects : (refs : List ℕ) (s : State) → others (map_objects host refs s) ≡ others s
  unfolding map_objects
  others-map_objects [] s = refl
  others-map_objects (r ∷ refs) s =
      let read = host.to_long (host.format_int (s.objects r).line) in
      others-map_objects refs (map_object host r read s) ∙ others-map_object r read s

  module _ (reads : ReadsLines host) where
    map_objects-IsIndex :
        (rest done : List ℕ) (s : State)
        → IsIndex host s.objects s.fresh done s.file_map
        → Apart s.objects (done ++ rest)
        → All (IsSound host s.fresh s.objects) rest
        → IsIndex host s.objects s.fresh (done ++ rest) (map_objects host rest s).file_map
    unfolding map_objects map_object update_file_map
    map_objects-IsIndex [] done s h apart sound =
        subst (λ refs. IsIndex host s.objects s.fresh refs s.file_map) (sym (append-nil done)) h
    map_objects-IsIndex (r ∷ rest) done s h apart sound =
        let put = update_file_map host (s.objects r).filename r true s in
        let assoc = append_assoc done (r ∷ []) rest in
        let added = add-IsIndex host h r sound.0 (Apart-middle s.objects done rest r apart) in
        let built =
          map_objects-IsIndex rest (done ++ r ∷ []) put added
            (subst (Apart s.objects) (sym assoc) apart) sound.1 in
        subst
          (λ o.
            IsIndex host s.objects s.fresh (done ++ r ∷ rest)
              (map_objects host rest (map_object host r o s)).file_map)
          (sym (reads (s.objects r).line))
          (subst (λ refs. IsIndex host s.objects s.fresh refs (map_objects host rest put).file_map)
            assoc built)

  update_dap-found :
      (filename : Text) (s : State)
      → IsIndexed host s
      → find_entry filename s.file_map ≢ none
      → (t : State) × (update_dap host filename s ≡ some t) × (bones t ≡ bones s)
  update_dap-found filename s h found =
      by_flags (nil-cases (of_file s.objects filename s.breakpoints)) (Bool-cases (is_on s))
    where
      by_flags :
          (of_file s.objects filename s.breakpoints ≡ [])
            ⊎ (of_file s.objects filename s.breakpoints ≢ [])
          → (is_on s ≡ true) ⊎ (is_on s ≡ false)
          → (t : State) × (update_dap host filename s ≡ some t) × (bones t ≡ bones s)
      by_flags (inl gone) on = absurd (found (find-none-of_file host h filename gone))
      by_flags (inr here) (inl on) =
          let told = update_dap-sends host filename s h on (inl here) in
          (_, told, bones-update_dap host filename s _ told)
      by_flags (inr here) (inr off) = (s, update_dap-off host filename s off, refl)

  update_files-returns :
      (files : TextMap (List ℕ)) (s : State)
      → IsIndexed host s
      → All (λ e. find_entry e.0 s.file_map ≢ none) files
      → (t : State) × (update_files host files s ≡ some t) × (bones t ≡ bones s)
  unfolding update_files Option.bind
  update_files-returns [] s h found = (s, refl, refl)
  update_files-returns ((filename, v) ∷ files) s h found =
      let (t, told, kept) = update_dap-found filename s h found.0 in
      let (u, rest, kept') = update_files-returns files t (bones-IsIndexed host s t kept h) (
        subst (λ m. All (λ e. find_entry e.0 m ≢ none) files) (ap (λ b. b.3) (sym kept)) found.1) in
      (u, ap (λ o. Option.bind o (update_files host files)) told ∙ rest, kept' ∙ kept)

  -- After DAPDebuggerResetData at the start of a session, which empties the file map,
  -- CreateStartBreakpoints returns, and makes the map an index of the same breakpoints again, where
  -- no temporary breakpoints wait and `ToLong` reads what `Format` writes.
  pub create_start-reset_data :
      ReadsLines host
      → (s : State) → IsIndexed host s
      → s.temporary_breakpoints ≡ []
      → (t : State) × (create_start_breakpoints host (reset_data startup s) ≡ some t)
        × IsIndexed host t
        × (t.breakpoints ≡ s.breakpoints)
  unfolding create_start_breakpoints reset_data
  create_start-reset_data reads s h none_wait =
      let emptied = reset_data startup s in
      let mapped = map_objects host s.breakpoints emptied in
      let same = others-map_objects s.breakpoints emptied in
      let index : IsIndex host s.objects s.fresh s.breakpoints mapped.file_map =
        map_objects-IsIndex reads s.breakpoints [] emptied (empty-IsIndex host s.objects s.fresh)
          h.apart h.sound in
      let indexed : IsIndexed host mapped =
        subst (λ o. IsIndex host o.0 o.1 o.2 mapped.file_map) (sym same) index in
      let (t, told, kept) =
        update_files-returns mapped.file_map mapped indexed (keys_found mapped.file_map) in
      let cleared : State = record t { temporary_breakpoints = [] } in
      (
        cleared,
        ap
              (λ refs.
                let all = map_objects host refs mapped in
                Option.map (λ u. let v : State = record u { temporary_breakpoints = [] } in v)
                  (update_files host all.file_map all))
              none_wait
            ∙ ap (Option.map (λ u. let v : State = record u { temporary_breakpoints = [] } in v))
                told,
        bones-IsIndexed host mapped t kept indexed,
        ap (λ b. b.2) kept ∙ ap (λ o. o.2) same,
      )
