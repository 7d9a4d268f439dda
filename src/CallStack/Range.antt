-- ===== src/CallStack/Range.antt =====
-- The frames of the backtrace by their numbers, and the frame that becomes the active one.
use debugger_dap.Common.{
  ℕ, zero, suc, ◌+◌, ◌<◌, ◌≤◌, ◌≡◌, refl, ap, ◌∙◌, List, [], ◌∷◌, none, some, length, arith,
  Bool-cases, inl, inr,
}
use debugger_dap.Common.Int.{ℤ, pos, ltb_ℤ}
use debugger_dap.Protocol.Bodies.{StackFrame}
use debugger_dap.CallStack.{
  Host, Frame, CurrentFrame, set_frame, frame_at, shown_frame, shown_frames, chosen_frame,
}

pub length-shown_frames :
    (host : Host) (n : ℕ) (frames : List StackFrame)
    → length (shown_frames host n frames) ≡ length frames
unfolding shown_frames
length-shown_frames host n [] = refl
length-shown_frames host n (f ∷ rest) = ap suc (length-shown_frames host (suc n) rest)

-- The frames are numbered by their places.
pub frame_at-shown_frames :
    (host : Host) (start n : ℕ) (frames : List StackFrame)
    → n < length frames
    → (f : Frame) × (frame_at (shown_frames host start frames) (pos n) ≡ some f)
      × (f.number ≡ pos (start + n))
      × ((source : StackFrame) × (f.line ≡ host.format_int source.line))
unfolding shown_frames frame_at shown_frame
frame_at-shown_frames host start n [] h = absurd (omega arith)
frame_at-shown_frames host start zero (f ∷ rest) h =
    (shown_frame host start f, refl, ap pos (omega arith), (f, refl))
frame_at-shown_frames host start (suc n) (f ∷ rest) h =
    let (g, found, number, line) = frame_at-shown_frames host (suc start) n rest (omega arith) in
    (g, found, number ∙ ap pos (omega arith), line)

pub frame_at-beyond :
    (frames : List Frame) (n : ℕ) → length frames ≤ n → frame_at frames (pos n) ≡ none
unfolding frame_at
frame_at-beyond [] n h = refl
frame_at-beyond (f ∷ rest) zero h = absurd (omega arith)
frame_at-beyond (f ∷ rest) (suc n) h = frame_at-beyond rest n (omega arith)

pub set_frame-chosen_frame :
    (host : Host) (first : ℤ) (current : CurrentFrame)
    → CurrentFrame.stack_frame (set_frame (chosen_frame host current.user_selected first) current)
      ≡ chosen_frame host current.user_selected first
unfolding set_frame chosen_frame
set_frame-chosen_frame host first current =
    elim (Bool-cases (ltb_ℤ current.user_selected (pos 0))) [
      | inl none_selected ↦ rw none_selected refl
      | inr selected ↦ rw (selected, selected) refl
    ]
