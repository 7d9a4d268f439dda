-- ===== src/CallStack/Active.antt =====
-- Which frame a new backtrace makes the active one, and when that frame does not exist.
use mathlib.Core.Option
use debugger_dap.Common.{
  ℕ, ◌+◌, ◌<◌, ◌≤◌, ◌≡◌, refl, ap, sym, ◌∙◌, true, ◌&&◌, List, [], ◌∷◌, ◌⊎◌, Option, none, some,
  length, ltb, arith, Bool-cases, inl, inr, if_both, subst, if◌then◌else◌,
}
use debugger_dap.Common.Int.{ℤ, pos, negsuc, eq_ℤ, ltb_ℤ}
use debugger_dap.DebuggerState.{is_running, is_stopped}
use debugger_dap.Protocol.Bodies.{StackFrame}
use debugger_dap.CallStack.{
  Host, Frame, State, switch_frame, frame_at, switch_to_frame, select_frame, go_to_frame,
  set_active, activate, shown_frames, first_of, chosen_frame, on_stack_trace,
}
use debugger_dap.CallStack.Range.{
  length-shown_frames, frame_at-shown_frames, frame_at-beyond, set_frame-chosen_frame,
}

-- `ToLong` reads what `Format` writes.
abbrev pub ReadsLines : Host → Type 0
ReadsLines host = (n : ℤ) → host.to_long (host.format_int n) ≡ some n

-- The number of the selected frame, or 0.
abbrev pub selected_or_top : ℤ → ℕ
selected_or_top (pos n) = n
selected_or_top (negsuc n) = 0

chosen_frame_lem :
    (host : Host) (selected : ℤ) (frames : List StackFrame)
    → 0 < length frames
    → chosen_frame host selected (first_of host frames) ≡ pos (selected_or_top selected)
unfolding chosen_frame first_of
chosen_frame_lem host selected [] h = absurd (omega arith)
chosen_frame_lem host (pos n) (f ∷ rest) h = ground arith
chosen_frame_lem host (negsuc n) (f ∷ rest) h = ground arith

-- A result with the frames and the active frame.
unfoldable pub IsActive : Host → List StackFrame → ℕ → Option State → Type 0
IsActive host frames n o =
    (t : State) × (o ≡ some t)
    × (t.backtrace ≡ shown_frames host 0 frames)
    × (t.current.stack_frame ≡ pos n)

module _ (host : Host) (reads : ReadsLines host) (frames : List StackFrame) (n : ℕ) where
  pub select_frame-IsActive :
      (s : State) (f : Frame) (source : StackFrame)
      → s.backtrace ≡ shown_frames host 0 frames
      → f.line ≡ host.format_int source.line
      → IsActive host frames n (select_frame host (pos n) s f)
  unfolding IsActive select_frame switch_frame
  select_frame-IsActive s f source shown line =
      let e = ap host.to_long line ∙ reads source.line in rw e (_, refl, shown, refl)

  switch_to_frame-IsActive :
      (s : State) (f : Frame) (source : StackFrame)
      → s.backtrace ≡ shown_frames host 0 frames
      → s.current.stack_frame ≡ pos n
      → frame_at s.backtrace (pos n) ≡ some f
      → f.line ≡ host.format_int source.line
      → IsActive host frames n (switch_to_frame host (pos n) s)
  unfolding IsActive switch_to_frame Option.bind
  switch_to_frame-IsActive s f source shown active found line =
      if_both (IsActive host frames n)
        (is_running s.flags && is_stopped s.flags && ltb_ℤ (pos n) (pos (length s.backtrace)))
        (rw found (select_frame-IsActive s f source shown line)) (s, refl, shown, active)

  go_to_frame-IsActive :
      (s : State) (f : Frame) (source : StackFrame)
      → s.backtrace ≡ shown_frames host 0 frames
      → s.current.stack_frame ≡ pos n
      → frame_at s.backtrace (pos n) ≡ some f
      → f.number ≡ pos n
      → f.line ≡ host.format_int source.line
      → IsActive host frames n (go_to_frame host s f)
  unfolding IsActive go_to_frame
  go_to_frame-IsActive s f source shown active found number line =
      if_both (IsActive host frames n) (eq_ℤ s.old_active_frame f.number) (s, refl, shown, active)
        (subst (λ m. IsActive host frames n (switch_to_frame host m s)) (sym number)
          (switch_to_frame-IsActive s f source shown active found line))

with_frames : Host → List StackFrame → State → State
with_frames host frames s = record s {
  backtrace = shown_frames host 0 frames;
  first_valid = first_of host frames;
}

on_stack_trace-activate :
    (host : Host)
    → host.has_dialog ≡ true
    → (frames : List StackFrame) (s : State) → 0 < length frames
    → on_stack_trace host frames s ≡ activate host (with_frames host frames s)
unfolding on_stack_trace with_frames
on_stack_trace-activate host dialog frames s h =
    let shown = with_frames host frames s in
    let some_frames : ltb 0 (length shown.backtrace) ≡ true =
      ap (ltb 0) (length-shown_frames host 0 frames) ∙ ground arith in
    ap (λ b. if b then activate host shown else some shown)
      (ap (λ b. b && ltb 0 (length shown.backtrace)) dialog ∙ some_frames)

-- With a backtrace dialog and lines that are read back, on frames that are not empty: where the
-- selected frame, or the top without one, is among them, OnStackTrace returns with just these
-- frames, numbered in order, and that one active; where it is not, the code reads beyond the frames.
pub on_stack_trace_lem :
    (host : Host)
    → ReadsLines host
    → host.has_dialog ≡ true
    → (frames : List StackFrame) (s : State) → 0 < length frames
    → ((selected_or_top s.current.user_selected < length frames)
        × ((t : State) × (on_stack_trace host frames s ≡ some t)
            × (t.backtrace ≡ shown_frames host 0 frames)
            × (t.current.stack_frame ≡ pos (selected_or_top s.current.user_selected))))
      ⊎ ((length frames ≤ selected_or_top s.current.user_selected)
          × (on_stack_trace host frames s ≡ none))
unfolding IsActive activate set_active Option.bind with_frames
on_stack_trace_lem host reads dialog frames s h =
    let n = selected_or_top s.current.user_selected in
    let shown = with_frames host frames s in
    let zero_add : 0 + n ≡ n = omega arith in
    let opened = on_stack_trace-activate host dialog frames s h in
    let chosen = chosen_frame_lem host s.current.user_selected frames h in
    let to : Option Frame → Option State =
      λ o. Option.bind o (go_to_frame host (set_active host shown)) in
    let landed : on_stack_trace host frames s ≡ to (frame_at shown.backtrace (pos n)) =
      opened ∙ ap (λ m. to (frame_at shown.backtrace m)) chosen in
    elim (Bool-cases (ltb n (length frames))) [
      | inl inside ↦
          let below : n < length frames = ground (arith, inside) in
          let (f, found, number, (source, line)) = frame_at-shown_frames host 0 n frames below in
          inl (
            below,
            subst (IsActive host frames n) (sym (landed ∙ ap to found)) (
                go_to_frame-IsActive host reads frames n (set_active host shown) f source refl
                  (set_frame-chosen_frame host shown.first_valid s.current ∙ chosen) found
                  (number ∙ ap pos zero_add) line),
          )
      | inr outside ↦
          let beyond : length frames ≤ n = ground (arith, outside) in
          inr (
            beyond,
            landed
                ∙ ap to (
                    frame_at-beyond shown.backtrace n
                      (subst (λ m. m ≤ n) (sym (length-shown_frames host 0 frames)) beyond)),
          )
    ]
