-- ===== src/Breakpoints/Run.antt =====
-- Sequences of operations on the breakpoints, as the plugin, the editor and the debugger order them.
use mathlib.Core.Option
use debugger_dap.Common.{bind-some}
use debugger_dap.Common.{
  ℕ, ◌≡◌, refl, ap, sym, ◌∙◌, Bool, true, false, not, ◌&&◌, List, [], ◌∷◌, ◌++◌, Option, none, some,
  ◌==◌, if◌then◌else◌, if_both, arith, Bool-cases, inl, inr, length,
}
use debugger_dap.Common.Int.{ℤ, pos, eq_ℤ, ◌+ℤ◌}
use debugger_dap.Text.{Text, find}
use debugger_dap.DebuggerState.{is_running, is_stopped}
use debugger_dap.Client.Api.{Command, continue, get_frames, get_threads}
use debugger_dap.Protocol.{not_found}
use debugger_dap.Breakpoints.State.{
  DapBreakpoint, all_data, Host, State, set_object, tell, minus_one, get_location, synced,
}
use debugger_dap.Breakpoints.Actions.{
  update_or_add, delete_breakpoint, enable_breakpoint, add_breakpoint, add_temporary, run_to_cursor,
  delete_all_breakpoints, reset_data, get_breakpoint_by_id,
}
use debugger_dap.Breakpoints.Events.{
  Reply, on_breakpoint_data_set, on_process_breakpoint_data, number_lines, take_reply, hit_object,
  hit_number, hit_text, process_description, id_text, hit_break_text,
}
use debugger_dap.Breakpoints.Shift.{shift_all_file_breakpoints}
use debugger_dap.Breakpoints.Shifted.{shift_breakpoints-IsFree}
use debugger_dap.Breakpoints.FileMap.{find_entry}
use debugger_dap.Breakpoints.Indexed.{IsIndexed, IsIndex}
use debugger_dap.Breakpoints.Kept.{
  map-some, set_object-IsIndexed, same-IsIndexed, bones-IsIndexed, bones-tell,
}
use debugger_dap.Breakpoints.Deleted.{
  update_or_add-IsIndexed, delete_breakpoint-IsIndexed, enable_breakpoint-IsIndexed,
}

pub data Operation : Type 0 where
  update : Text → ℤ → Bool → ℤ → Operation
  delete : ℕ → Operation
  switch : ℕ → Bool → Operation
  run_to : Text → ℤ → Operation
  replies : List Reply → Operation
  stopped_at : Text → Operation
  clear : Operation
  reset : Operation
  -- lines are inserted in a file
  shift : Text → ℤ → ℕ → Operation
  -- the flags of the session are changed elsewhere
  session : ℕ → Operation

unfoldable pub operate : Host → Operation → State → Option State
unfolding update_or_add delete_breakpoint enable_breakpoint run_to_cursor on_breakpoint_data_set
    on_process_breakpoint_data delete_all_breakpoints reset_data shift_all_file_breakpoints
operate host (update filename line enable id) s =
    Option.map (λ n. n.1) (update_or_add host filename line enable id s)
operate host (delete pointer) s = delete_breakpoint host pointer s
operate host (switch pointer flag) s = enable_breakpoint host pointer flag s
operate host (run_to filename line) s = run_to_cursor host filename line s
operate host (replies list) s = on_breakpoint_data_set host list s
operate host (stopped_at description) s = on_process_breakpoint_data host description s
operate host clear s = some (delete_all_breakpoints host s)
operate host reset s = some (reset_data all_data s)
operate host (shift filename start_line n) s =
    shift_all_file_breakpoints host filename start_line (pos n) s
operate host (session flags) s = some (record s { flags = flags })

unfoldable pub run : Host → List Operation → State → Option State
unfolding operate
run host [] s = some s
run host (o ∷ rest) s = Option.bind (operate host o s) (run host rest)

module _ (host : Host) where
  -- What an operation that returns does to an indexed state.
  abbrev Keeps : (State → Option State) → Type 0
  Keeps f = (s t : State) → IsIndexed host s → f s ≡ some t → IsIndexed host t

  abbrev Keeping : State → Option State → Type 0
  Keeping t o = o ≡ some t → IsIndexed host t

  bind-Keeps : (f g : State → Option State) → Keeps f → Keeps g → Keeps (λ s. Option.bind (f s) g)
  bind-Keeps f g keep_f keep_g s t h e =
      let (u, got, rest) = bind-some (f s) g e in keep_g u t (keep_f s u h got) rest

  if-Keeps :
      (b : Bool) {f g : State → Option State}
      → Keeps f
      → Keeps g
      → Keeps (λ s. if b then f s else g s)
  if-Keeps true f g = f
  if-Keeps false f g = g

  map-Keeps :
      (f : State → Option State) (g : State → State)
      → Keeps f
      → ((s : State) → IsIndexed host s → IsIndexed host (g s))
      → Keeps (λ s. Option.map g (f s))
  map-Keeps f g keep_f keep_g s t h e =
      let (u, got, is_t) = map-some g (f s) e in
      same-IsIndexed host (g u) t (ap some is_t) (keep_g u (keep_f s u h got))

  tell-IsIndexed :
      (command : Command) (s : State) → IsIndexed host s → IsIndexed host (tell host command s)
  tell-IsIndexed command s h =
      bones-IsIndexed host s (tell host command s) (bones-tell host command s) h

  update-Keeps :
      (filename : Text) (line : ℤ) (enable : Bool) (id : ℤ)
      → Keeps (λ s. Option.map (λ n. n.1) (update_or_add host filename line enable id s))
  update-Keeps filename line enable id s t h e =
      let ((r, u), got, is_t) =
        map-some (λ n. n.1) (update_or_add host filename line enable id s) e in
      same-IsIndexed host u t (ap some is_t)
        (update_or_add-IsIndexed host filename line enable id s h r u got)

  number_lines-Keeps : (reply : Reply) (refs : List ℕ) → Keeps (number_lines host reply refs)
  unfolding number_lines
  number_lines-Keeps reply [] s t h e = same-IsIndexed host s t e h
  number_lines-Keeps reply (r ∷ refs) s t h e =
      elim (Bool-cases
        (not (length (get_location (s.objects r)) == 0) && eq_ℤ (s.objects r).line reply.line)) [
          | inl at_line ↦
              let ((q, u), got, rest) =
                bind-some
                  (update_or_add host (get_location (s.objects r)) reply.line true reply.id s)
                  (λ n. number_lines host reply refs n.1) (ground (arith, e, at_line)) in
              number_lines-Keeps reply refs u t
                (update_or_add-IsIndexed host (get_location (s.objects r)) reply.line true reply.id
                  s h q u got)
                rest
          | inr elsewhere ↦ number_lines-Keeps reply refs s t h (ground (arith, e, elsewhere))
        ]

  take_reply-Keeps : (reply : Reply) → Keeps (take_reply host reply)
  unfolding take_reply
  take_reply-Keeps reply s t h e =
      if-Keeps (not (eq_ℤ reply.line minus_one) && reply.verified)
        (if-Keeps (not (length reply.path == 0)) (update-Keeps reply.path reply.line true reply.id)
          (λ s. number_lines-Keeps reply s.breakpoints s))
        (λ s t h e. same-IsIndexed host s t e h) s t h e

  replies-Keeps : (list : List Reply) → Keeps (on_breakpoint_data_set host list)
  unfolding on_breakpoint_data_set
  replies-Keeps [] = λ s t h e. same-IsIndexed host s t e h
  replies-Keeps (reply ∷ rest) =
      bind-Keeps (take_reply host reply) (on_breakpoint_data_set host rest) (take_reply-Keeps reply)
        (replies-Keeps rest)

  delete-Keeps : (p : ℕ) → Keeps (delete_breakpoint host p)
  delete-Keeps p s t h e = delete_breakpoint-IsIndexed host p s t h e

  hit_object-Keeps : (o : Option ℕ) → Keeps (hit_object host o)
  unfolding hit_object
  hit_object-Keeps none s t h e = same-IsIndexed host s t e h
  hit_object-Keeps (some r) s t h e =
      let b = s.objects r in
      let shown : State = record s {
        trace = s.trace ++ synced b.filename (b.line +ℤ pos 1) ∷ [];
      } in
      if_both (Keeping t) (not (length b.filename == 0))
        (if_both (Keeping t) b.temporary (delete-Keeps r shown t h)
          (λ e. same-IsIndexed host shown t e h))
        (λ e. same-IsIndexed host s t e h) e

  hit_number-Keeps : (o : Option ℤ) → Keeps (hit_number host o)
  unfolding hit_number
  hit_number-Keeps none s t h e = same-IsIndexed host s t e h
  hit_number-Keeps (some id) s t h e = hit_object-Keeps (get_breakpoint_by_id id s) s t h e

  hit_text-Keeps : (text : Text) → Keeps (hit_text host text)
  unfolding hit_text
  hit_text-Keeps [] s t h e = same-IsIndexed host s t e h
  hit_text-Keeps (c ∷ text) s t h e = hit_number-Keeps (host.to_long (c ∷ text)) s t h e

  description-Keeps : (description : Text) → Keeps (process_description host description)
  unfolding process_description
  description-Keeps [] s t h e = same-IsIndexed host s t e h
  description-Keeps (c ∷ rest) s t h e =
      let (text, got, hit) =
        bind-some (id_text host (c ∷ rest) (find hit_break_text (c ∷ rest)))
          (λ text. hit_text host text s) e in
      hit_text-Keeps text s t h hit

  stopped-Keeps : (description : Text) → Keeps (on_process_breakpoint_data host description)
  unfolding on_process_breakpoint_data
  stopped-Keeps description =
      map-Keeps (process_description host description)
        (λ t. tell host get_threads (tell host (get_frames not_found) t))
        (description-Keeps description)
        (λ s h.
          tell-IsIndexed get_threads (tell host (get_frames not_found) s)
            (tell-IsIndexed (get_frames not_found) s h))

  temporary-Keeps : (filename : Text) (line : ℤ) → Keeps (add_temporary host filename line)
  unfolding add_temporary add_breakpoint
  temporary-Keeps filename line s t h e =
      let mark : ℕ × State → State =
        λ n. set_object n.1 n.0 (let b = State.objects n.1 n.0 in record b { temporary = true }) in
      let ((r, u), got, is_t) =
        map-some mark (update_or_add host filename line true minus_one s) e in
      same-IsIndexed host (mark (r, u)) t (ap some is_t) (
        set_object-IsIndexed host r (let b = u.objects r in record b { temporary = true }) u
          (update_or_add-IsIndexed host filename line true minus_one s h r u got) refl)

  run_to-Keeps : (filename : Text) (line : ℤ) → Keeps (run_to_cursor host filename line)
  unfolding run_to_cursor
  run_to-Keeps filename line s t h =
      if_both (Keeping t) (is_running s.flags)
        (if_both (Keeping t) (is_stopped s.flags)
          (map-Keeps (add_temporary host filename line) (tell host (continue not_found true))
            (temporary-Keeps filename line) (tell-IsIndexed (continue not_found true)) s t h)
          (λ e. same-IsIndexed host s t e h))
        (temporary-Keeps filename line s t h)

  -- Without breakpoints an empty map is an index.
  pub empty-IsIndex : (objects : ℕ → DapBreakpoint) (fresh : ℕ) → IsIndex host objects fresh [] []
  unfolding find_entry
  empty-IsIndex objects fresh = record {
    indexes = λ f. refl;
    filled = λ f e. cc;
    apart = tt;
    sound = tt;
  }

  shift-Keeps :
      (filename : Text) (start_line : ℤ) (n : ℕ)
      → Keeps (shift_all_file_breakpoints host filename start_line (pos n))
  shift-Keeps filename start_line n s t h e =
      let (u, got, kept, _, _) = shift_breakpoints-IsFree host filename start_line n s h in
      same-IsIndexed host u t (sym got ∙ e) kept

  operate-Keeps : (o : Operation) → Keeps (operate host o)
  unfolding operate delete_all_breakpoints reset_data
  operate-Keeps (update filename line enable id) = update-Keeps filename line enable id
  operate-Keeps (delete p) = delete-Keeps p
  operate-Keeps (switch p flag) = λ s t h e. enable_breakpoint-IsIndexed host p flag s t h e
  operate-Keeps (run_to filename line) = run_to-Keeps filename line
  operate-Keeps (replies list) = replies-Keeps list
  operate-Keeps (stopped_at description) = stopped-Keeps description
  operate-Keeps clear =
      λ s t h e. same-IsIndexed host (delete_all_breakpoints host s) t e (empty-IsIndex _ _)
  operate-Keeps reset =
      λ s t h e. same-IsIndexed host (reset_data all_data s) t e (empty-IsIndex s.objects s.fresh)
  operate-Keeps (shift filename start_line n) = shift-Keeps filename start_line n
  operate-Keeps (session flags) =
      λ s t h e. same-IsIndexed host (let u : State = record s { flags = flags } in u) t e h

  -- From a state whose file map is an index of its breakpoints, any sequence that returns, of
  -- UpdateOrAddBreakpoint, DeleteBreakpoint, EnableBreakpoint, RunToCursor, OnBreakpointDataSet,
  -- OnProcessBreakpointData, DeleteAllBreakpoints, the reset of all data, ShiftAllFileBreakpoints
  -- for inserted lines and changes of the session's flags, ends in such a state: each file has
  -- exactly its breakpoints, in their order, no container is empty, no two breakpoints stand on one
  -- line, and all are breakpoints of the code.
  pub run-IsIndexed :
      (operations : List Operation) (s t : State)
      → IsIndexed host s
      → run host operations s ≡ some t
      → IsIndexed host t
  unfolding run
  run-IsIndexed [] s t h e = same-IsIndexed host s t e h
  run-IsIndexed (o ∷ rest) s t h e =
      bind-Keeps (operate host o) (run host rest) (operate-Keeps o) (run-IsIndexed rest) s t h e
