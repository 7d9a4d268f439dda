-- ===== src/CallStack/Flags.antt =====
-- What the call stack does leaves the flags of the session alone.
use debugger_dap.Common.{
  ◌≡◌, refl, ap, sym, ◌∙◌, ◌&&◌, List, [], ◌∷◌, ◌++◌, Option, some, length, ltb, if_both, bind-some,
}
use debugger_dap.Common.Int.{ℤ, pos, eq_ℤ, ltb_ℤ}
use debugger_dap.DebuggerState.{is_running, is_stopped}
use debugger_dap.Protocol.Bodies.{StackFrame}
use debugger_dap.Breakpoints.Kept.{map-some}
use debugger_dap.Breakpoints.State.{synced}
use debugger_dap.CallStack.{
  Host, Frame, State, switch_frame, frame_at, select_frame, switch_to_frame, go_to_frame,
  set_active, activate, chosen_frame, shown_frames, first_of, on_stack_trace,
}

module _ (host : Host) where
  -- A result has the flags of the state.
  abbrev Keeps : State → Option State → Type 0
  Keeps s o = (t : State) → o ≡ some t → t.flags ≡ s.flags

  some-Keeps : (s u : State) → u.flags ≡ s.flags → Keeps s (some u)
  some-Keeps s u same t e = let is_t : u ≡ t = cc in sym (ap (λ v. State.flags v) is_t) ∙ same

  select_frame-Keeps : (number : ℤ) (s : State) (f : Frame) → Keeps s (select_frame host number s f)
  unfolding select_frame
  select_frame-Keeps number s f t e =
      let go : ℤ → State = λ n. record s {
        current = switch_frame number s.current;
        trace = s.trace ++ synced (Frame.file f) n ∷ [];
      } in
      let (n, _, is_t) = map-some go (host.to_long (Frame.line f)) e in
      sym (ap (λ v. State.flags v) is_t)

  pub switch_to_frame-Keeps : (number : ℤ) (s : State) → Keeps s (switch_to_frame host number s)
  unfolding switch_to_frame
  switch_to_frame-Keeps number s t e =
      if_both (λ o. o ≡ some t → t.flags ≡ s.flags)
        (is_running s.flags && is_stopped s.flags && ltb_ℤ number (pos (length s.backtrace)))
        (λ e.
          let (f, _, went) =
            bind-some (frame_at s.backtrace number) (select_frame host number s) e in
          select_frame-Keeps number s f t went)
        (some-Keeps s s refl t) e

  go_to_frame-Keeps : (s : State) (f : Frame) → Keeps s (go_to_frame host s f)
  unfolding go_to_frame
  go_to_frame-Keeps s f t e =
      if_both (λ o. o ≡ some t → t.flags ≡ s.flags) (eq_ℤ s.old_active_frame (Frame.number f))
        (some-Keeps s s refl t) (switch_to_frame-Keeps (Frame.number f) s t) e

  activate-Keeps : (s : State) → Keeps s (activate host s)
  unfolding activate set_active
  activate-Keeps s t e =
      let (f, _, went) =
        bind-some (frame_at s.backtrace (chosen_frame host s.current.user_selected s.first_valid))
          (go_to_frame host (set_active host s)) e in
      go_to_frame-Keeps (set_active host s) f t went

  pub on_stack_trace-Keeps :
      (frames : List StackFrame) (s : State) → Keeps s (on_stack_trace host frames s)
  unfolding on_stack_trace
  on_stack_trace-Keeps frames s t e =
      let shown : State = record s {
        backtrace = shown_frames host 0 frames;
        first_valid = first_of host frames;
      } in
      if_both (λ o. o ≡ some t → t.flags ≡ s.flags)
        (host.has_dialog && ltb 0 (length shown.backtrace)) (activate-Keeps shown t)
        (some-Keeps s shown refl t) e
