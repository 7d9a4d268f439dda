-- ===== src/Breakpoints/Deleted.antt =====
-- UpdateOrAddBreakpoint, DeleteBreakpoint and EnableBreakpoint keep the index.
use debugger_dap.Common.{bind-some}
use debugger_dap.Common.{
  ◌⊎◌, ℕ, ◌≡◌, refl, ap, sym, ◌∙◌, Bool, true, false, not, ◌&&◌, Option, none, some, if◌then◌else◌,
  ◌==◌, length, arith, Bool-cases, inl, inr, subst,
}
use debugger_dap.Common.Int.{ℤ, eq_ℤ}
use debugger_dap.Text.{Text}
use debugger_dap.DebuggerState.{is_running}
use debugger_dap.Breakpoints.State.{
  BreakpointType, code, Host, State, set_object, minus_one, get_location, location_of,
}
use debugger_dap.Breakpoints.FileMap.{update_file_map}
use debugger_dap.Breakpoints.Update.{update_dap}
use debugger_dap.Breakpoints.Actions.{
  has_pointer, drop_object, find_breakpoint, get_breakpoint_by_id, enable_object, by_number,
  update_or_add, source_name, same, delete_breakpoint, delete_by_type, enable_breakpoint,
  enable_found,
}
use debugger_dap.Breakpoints.Indexed.{IsIndexed, remove-IsIndex}
use debugger_dap.Breakpoints.Kept.{
  map-some, same-IsIndexed, update_dap-IsIndexed, enable_object-IsIndexed, by_place-IsIndexed,
  set_object-IsIndexed,
}

module _ (host : Host) where
  by_number-IsIndexed :
      (filename : Text) (line : ℤ) (enable : Bool) (id : ℤ) (o : Option ℕ) (s : State)
      → IsIndexed host s
      → (r : ℕ) (t : State) → by_number host filename line enable id o s ≡ some (r, t)
      → IsIndexed host t
  unfolding by_number
  by_number-IsIndexed filename line enable id (some q) s h r t e =
      let (u, got, is_t) = map-some (λ u. (q, u)) (enable_object host filename enable q s) e in
      subst (IsIndexed host) (let same_state : u ≡ t = cc in same_state)
        (enable_object-IsIndexed host filename enable q s u h got)
  by_number-IsIndexed filename line enable id none s h r t e =
      by_place-IsIndexed host filename line enable id
        (find_breakpoint (host.project_of filename) filename line s) s h refl r t e

  pub update_or_add-IsIndexed :
      (filename : Text) (line : ℤ) (enable : Bool) (id : ℤ) (s : State)
      → IsIndexed host s
      → (r : ℕ) (t : State) → update_or_add host filename line enable id s ≡ some (r, t)
      → IsIndexed host t
  unfolding update_or_add
  update_or_add-IsIndexed filename line enable id s h r t e =
      by_number-IsIndexed (source_name filename s.dap_names) line enable id
        (if eq_ℤ id minus_one then none else get_breakpoint_by_id id s) s h r t e

  pub drop_object-IsIndexed :
      (p : ℕ) (s : State)
      → IsIndexed host s
      → has_pointer p s.breakpoints ≡ true
      → IsIndexed host (drop_object host (s.objects p).filename p s)
  unfolding drop_object update_file_map
  drop_object-IsIndexed p s h e = remove-IsIndex host h p e

  delete_by_type-IsIndexed :
      (type : BreakpointType) (p : ℕ) (s t : State)
      → IsIndexed host s
      → has_pointer p s.breakpoints ≡ true
      → (s.objects p).type ≡ type
      → delete_by_type host type p s ≡ some t
      → IsIndexed host t
  unfolding delete_by_type get_location
  delete_by_type-IsIndexed code p s t h k is_code e =
      update_dap-IsIndexed host (s.objects p).filename (drop_object host (s.objects p).filename p s)
        t (drop_object-IsIndexed p s h k)
        (ap
            (λ type.
              let filename = location_of type (s.objects p) in
              update_dap host filename (drop_object host filename p s))
            (sym is_code)
          ∙ e)
  delete_by_type-IsIndexed _ p s t h k is_type e = same-IsIndexed host s t e h

  pub delete_breakpoint-IsIndexed :
      (p : ℕ) (s t : State)
      → IsIndexed host s
      → delete_breakpoint host p s ≡ some t
      → IsIndexed host t
  unfolding delete_breakpoint
  delete_breakpoint-IsIndexed p s t h e = elim (Bool-cases (has_pointer p s.breakpoints)) [
    | inl known ↦
        delete_by_type-IsIndexed (s.objects p).type p s t h known refl (ground (arith, e, known))
    | inr unknown ↦ same-IsIndexed host s t (ground (arith, e, unknown)) h
  ]

  -- The flag that is set in the end.
  pub mark-IsIndexed :
      (p : ℕ) (enable : Bool) (s : State)
      → IsIndexed host s
      → IsIndexed host (set_object s p (let b = s.objects p in record b { enabled = enable }))
  mark-IsIndexed p enable s h =
      set_object-IsIndexed host p (let b = s.objects p in record b { enabled = enable }) s h refl

  marked-IsIndexed :
      (p : ℕ) (enable : Bool) (s t : State)
      → set_object s p (let b = s.objects p in record b { enabled = enable }) ≡ t
      → IsIndexed host s
      → IsIndexed host t
  marked-IsIndexed p enable s t e h = subst (IsIndexed host) e (mark-IsIndexed p enable s h)

  pub enable_breakpoint-IsIndexed :
      (p : ℕ) (enable : Bool) (s t : State)
      → IsIndexed host s
      → enable_breakpoint host p enable s ≡ some t
      → IsIndexed host t
  unfolding enable_breakpoint enable_found
  enable_breakpoint-IsIndexed p enable s t h e =
      elim (Bool-cases (has_pointer p s.breakpoints && not (same (s.objects p).enabled enable))) [
        | inl change ↦ by_running (Bool-cases (is_running s.flags)) change
        | inr kept ↦ same-IsIndexed host s t (ground (arith, e, kept)) h
      ]
    where
      by_running :
          (is_running s.flags ≡ true) ⊎ (is_running s.flags ≡ false)
          → (has_pointer p s.breakpoints && not (same (s.objects p).enabled enable)) ≡ true
          → IsIndexed host t
      by_running (inl on) change =
          let b = s.objects p in
          let ((r, u), got, found) =
            bind-some (update_or_add host (get_location b) b.line enable b.id s)
              (enable_found p enable s.breakpoints) {b = t} (ground (arith, e, on, change)) in
          elim (Bool-cases (length u.breakpoints == length s.breakpoints)) [
            | inl kept ↦
                marked-IsIndexed p enable u t (ground (arith, found, kept))
                  (update_or_add-IsIndexed (get_location b) b.line enable b.id s h r u got)
            | inr pushed ↦ absurd (ground (arith, found, pushed))
          ]
      by_running (inr off) change =
          same-IsIndexed host
            (set_object s p (let b = s.objects p in record b { enabled = enable })) t
            (ground (arith, e, off, change)) (mark-IsIndexed p enable s h)
