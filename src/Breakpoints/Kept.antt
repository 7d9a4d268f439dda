-- ===== src/Breakpoints/Kept.antt =====
-- The operations of Breakpoints/Actions keep the index.
use mathlib.Core.Option
use debugger_dap.Common.{
  ℕ, ◌+◌, ◌≡◌, ◌≢◌, ◌<◌, refl, ap, sym, ◌∙◌, Bool, true, false, ◌&&◌, List, [], ◌∷◌, ◌++◌, Option,
  none, some, ◌==◌, if◌then◌else◌, if_both, arith, Bool-cases, inl, inr, ==_iff, find?, All,
  All-mono, subst,
}
use debugger_dap.Common.Int.{ℤ, eq_ℤ}
use debugger_dap.Text.{Text, text_eq}
use debugger_dap.Text.Find.{text_eq_iff}
use debugger_dap.DebuggerState.{is_running, is_stopped}
use debugger_dap.Protocol.Requests.{SourceBreakpoint}
use debugger_dap.Client.Api.{Command}
use debugger_dap.Breakpoints.State.{
  code, DapBreakpoint, TextMap, Host, State, write, set_object, placed, tell, minus_one,
}
use debugger_dap.Breakpoints.FileMap.{find_entry, with_container, update_file_map}
use debugger_dap.Breakpoints.Update.{lines_to_send, send_lines, update_dap}
use debugger_dap.Breakpoints.Actions.{
  push_new, is_at, find_breakpoint, enable_object, update_found, by_place, same,
}
use debugger_dap.Breakpoints.Index.{place, Agree, clash}
use debugger_dap.Breakpoints.Indexed.{IsSound, IsIndex, IsIndexed, Agree-IsIndex, add-IsIndex}

-- What the index speaks of.
abbrev pub Bones : Type 0
Bones = (ℕ → DapBreakpoint) × ℕ × List ℕ × TextMap (List ℕ)

abbrev pub bones : State → Bones
bones s = (s.objects, s.fresh, s.breakpoints, s.file_map)

pub write_self : (objects : ℕ → DapBreakpoint) (p : ℕ) (b : DapBreakpoint) → write objects p b p ≡ b
unfolding write
write_self objects p b = rw ((==_iff p p).1 refl)

pub write_other :
    (objects : ℕ → DapBreakpoint) (p r : ℕ) (b : DapBreakpoint)
    → r ≢ p
    → write objects p b r ≡ objects r
unfolding write
write_other objects p r b h =
    elim (Bool-cases (r == p)) as (λ _. (if r == p then b else objects r) ≡ objects r) [
      | inl e ↦ absurd (h ((==_iff r p).0 e))
      | inr e ↦ rw e
    ]

-- A write that leaves the place alone.
write-Agree :
    (fresh : ℕ) (objects : ℕ → DapBreakpoint) (p : ℕ) (b : DapBreakpoint)
    → place b ≡ place (objects p)
    → Agree fresh objects (write objects p b)
write-Agree fresh objects p b e r h =
    elim (Bool-cases (r == p)) as (λ _. place (write objects p b r) ≡ place (objects r)) [
      | inl q ↦
          subst (λ i. place (write objects p b i) ≡ place (objects i)) (sym ((==_iff r p).0 q))
            (ap place (write_self objects p b) ∙ e)
      | inr q ↦ ap place (write_other objects p r b (λ k. ground (arith, (==_iff r p).1 k)))
    ]

pub map-some {ℓ κ} :
    {A : Type ℓ} {B : Type κ} (f : A → B) (o : Option A) {b : B}
    → Option.map f o ≡ some b
    → (a : A) × (o ≡ some a) × (f a ≡ b)
map-some f none e = cc
map-some f (some a) e = (a, refl, cc)

find?-none :
    (p : ℕ → Bool) (r : ℕ) (refs : List ℕ)
    → find? p (r ∷ refs) ≡ none
    → (p r ≡ false) × (find? p refs ≡ none)
find?-none p r refs e = elim (Bool-cases (p r)) [
  | inl hit ↦ ground (arith, e, hit)
  | inr missed ↦ (missed, ground (arith, e, missed))
]

abbrev or_else : State → Option State → State
or_else s none = s
or_else s (some t) = t

module _ (host : Host) where
  pub bones-IsIndexed : (s t : State) → bones t ≡ bones s → IsIndexed host s → IsIndexed host t
  bones-IsIndexed s t e h = subst (λ b. IsIndex host b.0 b.1 b.2 b.3) (sym e) h

  -- A step that leaves everything as it is.
  pub same-IsIndexed : (s t : State) → some s ≡ some t → IsIndexed host s → IsIndexed host t
  same-IsIndexed s t e h = bones-IsIndexed s t (ap (λ o. bones (or_else s o)) (sym e)) h

  pub bones-tell : (command : Command) (s : State) → bones (tell host command s) ≡ bones s
  unfolding tell
  bones-tell command s = refl

  pub bones-send_lines :
      (filename : Text) (lines : List SourceBreakpoint) (s : State)
      → bones (send_lines host filename lines s) ≡ bones s
  unfolding send_lines tell
  bones-send_lines filename lines s = refl

  bones-map :
      (filename : Text) (o : Option (List SourceBreakpoint)) (s t : State)
      → Option.map (λ lines. send_lines host filename lines s) o ≡ some t
      → bones t ≡ bones s
  bones-map filename none s t e = cc
  bones-map filename (some lines) s t e =
      let back : t ≡ send_lines host filename lines s = cc in
      ap bones back ∙ bones-send_lines filename lines s

  pub bones-update_dap :
      (filename : Text) (s t : State) → update_dap host filename s ≡ some t → bones t ≡ bones s
  unfolding update_dap
  bones-update_dap filename s t e = elim (Bool-cases (is_running s.flags && is_stopped s.flags)) [
    | inl on ↦
        bones-map filename (lines_to_send s.objects filename s.file_map) s t (ground (arith, e, on))
    | inr off ↦ ground (arith, e, off)
  ]

  pub update_dap-IsIndexed :
      (filename : Text) (s t : State)
      → IsIndexed host s
      → update_dap host filename s ≡ some t
      → IsIndexed host t
  update_dap-IsIndexed filename s t h e = bones-IsIndexed s t (bones-update_dap filename s t e) h

  -- A breakpoint that stays where it is.
  pub set_object-IsIndexed :
      (r : ℕ) (b : DapBreakpoint) (s : State)
      → IsIndexed host s
      → place b ≡ place (s.objects r)
      → IsIndexed host (set_object s r b)
  unfolding set_object
  set_object-IsIndexed r b s h e =
      Agree-IsIndex host h (write s.objects r b) s.fresh (omega arith)
        (write-Agree s.fresh s.objects r b e)

  pub enable_object-IsIndexed :
      (filename : Text) (enable : Bool) (r : ℕ) (s t : State)
      → IsIndexed host s
      → enable_object host filename enable r s ≡ some t
      → IsIndexed host t
  unfolding enable_object
  enable_object-IsIndexed filename enable r s t h e =
      elim (Bool-cases (same (s.objects r).enabled enable)) [
        | inl done ↦ same-IsIndexed s t (ground (arith, e, done)) h
        | inr change ↦
            update_dap-IsIndexed filename
              (set_object s r (let b = s.objects r in record b { enabled = enable })) t
              (set_object-IsIndexed r (let b = s.objects r in record b { enabled = enable }) s h
                refl)
              (ground (arith, e, change))
      ]

  pub update_found-IsIndexed :
      (filename : Text) (enable : Bool) (id : ℤ) (r : ℕ) (s t : State)
      → IsIndexed host s
      → update_found host filename enable id r s ≡ some t
      → IsIndexed host t
  unfolding update_found
  update_found-IsIndexed filename enable id r s t h e =
      enable_object-IsIndexed filename enable r
        (let b = s.objects r in
          if eq_ℤ id minus_one then s else set_object s r (record b { id = id }))
        t
        (if_both (IsIndexed host) (eq_ℤ id minus_one) h
          (set_object-IsIndexed r (let b = s.objects r in record b { id = id }) s h refl))
        e

  -- Where nothing is found at the place, no breakpoint of the list is there.
  find-none :
      (fresh : ℕ) (objects : ℕ → DapBreakpoint) (refs : List ℕ) (filename : Text) (line : ℤ)
      → All (IsSound host fresh objects) refs
      → find? (λ r. is_at (host.project_of filename) filename line (objects r)) refs ≡ none
      → All
          (λ r.
            (r < fresh)
            × ((text_eq (objects r).filename filename && eq_ℤ (objects r).line line) ≡ false))
          refs
  unfolding is_at
  find-none fresh objects [] filename line h e = tt
  find-none fresh objects (r ∷ refs) filename line h e =
      let (missed, rest) =
        find?-none (λ q. is_at (host.project_of filename) filename line (objects q)) r refs e in
      (
        (
          h.0.0,
          ground (
            arith,
            text_eq_iff (objects r).filename filename,
            ==_iff (objects r).project (host.project_of filename),
            h.0,
            missed,
          ),
        ),
        find-none fresh objects refs filename line h.1 rest,
      )

  -- A breakpoint that is made, on a line of its own.
  push-IsIndex :
      {objects : ℕ → DapBreakpoint} {fresh : ℕ} {refs : List ℕ} {m : TextMap (List ℕ)}
      → IsIndex host objects fresh refs m
      → (b : DapBreakpoint) → b.type ≡ code
      → b.project ≡ host.project_of b.filename
      → All
          (λ q.
            (q < fresh)
            × ((text_eq (objects q).filename b.filename && eq_ℤ (objects q).line b.line) ≡ false))
          refs
      → IsIndex host (write objects fresh b) (fresh + 1) (refs ++ fresh ∷ []) (
          with_container host.key_less
            (write objects fresh b)
            b.filename
            fresh
            true
            (find_entry b.filename m)
            m)
  push-IsIndex {objects} {fresh} {refs} {m} h b is_code in_project free =
      let made = write objects fresh b in
      let self = write_self objects fresh b in
      let other : (q : ℕ) → q < fresh → made q ≡ objects q =
        λ q k. write_other objects fresh q b (λ e. omega (arith, e)) in
      subst
        (λ f.
          IsIndex host made (fresh + 1) (refs ++ fresh ∷ [])
            (with_container host.key_less made f fresh true (find_entry f m) m))
        (ap (λ x. x.filename) self)
        (add-IsIndex host
          (Agree-IsIndex host h made (fresh + 1) (omega arith) (λ q k. ap place (other q k))) fresh
          (
            omega arith,
            ap (λ x. x.type) self ∙ is_code,
            ap (λ x. x.project) self ∙ in_project ∙ ap (λ x. host.project_of x.filename) (sym self),
          )
          (All-mono
            (λ q.
              (q < fresh)
              × ((text_eq (objects q).filename b.filename && eq_ℤ (objects q).line b.line) ≡ false))
            (λ q. clash made q fresh ≡ false)
            (λ q k.
              ap (λ x. text_eq x.filename (made fresh).filename && eq_ℤ x.line (made fresh).line)
                (other q k.0)
              ∙ ap (λ x. text_eq (objects q).filename x.filename && eq_ℤ (objects q).line x.line)
                  self
              ∙ k.1)
            refs free))

  -- A new breakpoint stands behind the others and on a line of its own.
  pub push_new-IsIndexed :
      (filename : Text) (line id : ℤ) (s : State)
      → IsIndexed host s
      → find_breakpoint (host.project_of filename) filename line s ≡ none
      → IsIndexed host (push_new host filename line id s)
  unfolding push_new find_breakpoint set_object update_file_map placed
  push_new-IsIndexed filename line id s h e =
      push-IsIndex h (placed (host.project_of filename) filename line id) refl refl
        (find-none s.fresh s.objects s.breakpoints filename line h.sound e)

  pub by_place-IsIndexed :
      (filename : Text) (line : ℤ) (enable : Bool) (id : ℤ) (o : Option ℕ) (s : State)
      → IsIndexed host s
      → find_breakpoint (host.project_of filename) filename line s ≡ o
      → (r : ℕ) (t : State) → by_place host filename line enable id o s ≡ some (r, t)
      → IsIndexed host t
  unfolding by_place
  by_place-IsIndexed filename line enable id (some q) s h f r t e =
      let (u, got, is_t) = map-some (λ u. (q, u)) (update_found host filename enable id q s) e in
      subst (IsIndexed host) (let is_t' : u ≡ t = cc in is_t')
        (update_found-IsIndexed filename enable id q s u h got)
  by_place-IsIndexed filename line enable id none s h f r t e =
      let (u, got, is_t) =
        map-some (λ u. (s.fresh, u)) (update_dap host filename (push_new host filename line id s))
          e in
      subst (IsIndexed host) (let is_t' : u ≡ t = cc in is_t') (
        update_dap-IsIndexed filename (push_new host filename line id s) u
          (push_new-IsIndexed filename line id s h f) got)
