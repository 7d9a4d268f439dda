-- ===== src/CallStack/Session.antt =====
-- The call stack over a session: the answers to `stackTrace` and what the user does.
use mathlib.Core.Option
use debugger_dap.Common.{
  ◌⊎◌, ℕ, ◌<◌, ◌≡◌, Bool, true, false, ◌&&◌, List, [], ◌∷◌, Option, some, length, if◌then◌else◌,
}
use debugger_dap.Common.Int.{ℤ, pos}
use debugger_dap.DebuggerState.{is_running, is_stopped}
use debugger_dap.Protocol.Bodies.{StackFrame, Thread}
use debugger_dap.Breakpoints.State.{minus_one}
use debugger_dap.CallStack.{
  Host, State, reset_data, clear_threads, on_threads_response, switch_to_frame, switch_to_thread,
  shown_frames, on_stack_trace,
}
use debugger_dap.CallStack.Active.{ReadsLines}

-- What happens to the call stack. The answer to the request that a stop or a change of the thread
-- leads to arrives before the user selects a frame.
pub data Operation : Type 0 where
  -- OnStoppedEvent resets the data; the frames are the answer.
  stop : List StackFrame → Operation
  -- The frames are the answer where the request is sent.
  to_thread : ℤ → List StackFrame → Operation
  to_frame : ℕ → Operation
  thread_list : List Thread → Operation
  reset clear : Operation
  -- the flags of the session are changed elsewhere
  session : ℕ → Operation

abbrev pub answered : Host → List StackFrame → State × Bool → Option State
answered host frames (s, true) = on_stack_trace host frames s
answered host frames (s, false) = some s

abbrev pub operate : Host → Operation → State → Option State
operate host (stop frames) s = on_stack_trace host frames (reset_data s)
operate host (to_thread number frames) s = answered host frames (switch_to_thread host number s)
operate host (to_frame number) s = switch_to_frame host (pos number) s
operate host (thread_list threads) s = some (on_threads_response threads s)
operate host reset s = some (reset_data s)
operate host clear s = some (clear_threads s)
operate host (session flags) s = some (record s { flags = flags })

-- A run ends where an operation does not return.
abbrev pub run : Host → List Operation → State → Option State
run host [] s = some s
run host (o ∷ rest) s = Option.bind (operate host o s) (run host rest)

-- An answer has a frame.
abbrev pub HasFrames : Operation → Type 0
HasFrames (stop frames) = 0 < length frames
HasFrames (to_thread number frames) = 0 < length frames
HasFrames _ = Unit

-- The answer that is shown after an operation, in a session with the flags before it.
abbrev pub frames_after : Operation → ℕ → List StackFrame → List StackFrame
frames_after (stop answer) flags frames = answer
frames_after (to_thread number answer) flags frames =
    if is_running flags && is_stopped flags then answer else frames
frames_after reset flags frames = []
frames_after _ flags frames = frames

abbrev pub flags_after : Operation → ℕ → ℕ
flags_after (session flags) before = flags
flags_after _ before = before

-- The last answer that was asked for, or no frames after a reset.
abbrev pub last_answer : List Operation → ℕ → List StackFrame → List StackFrame
last_answer [] flags frames = frames
last_answer (o ∷ rest) flags frames =
    last_answer rest (flags_after o flags) (frames_after o flags frames)

-- The backtrace has these frames, numbered in order; there is no active frame, or it is one of them.
pub record IsShown (host : Host) (frames : List StackFrame) (s : State) : Type 0 where
  pub shown : s.backtrace ≡ shown_frames host 0 frames
  pub active :
      (s.current.stack_frame ≡ minus_one)
      ⊎ ((n : ℕ) × (s.current.stack_frame ≡ pos n) × (n < length frames))

module _ (host : Host) (reads : ReadsLines host) (dialog : host.has_dialog ≡ true) where
  -- It returns, in a state that shows the frames and has the flags.
  abbrev Works : List StackFrame → ℕ → Option State → Type 0
  Works frames flags o = (t : State) × (o ≡ some t) × IsShown host frames t × (t.flags ≡ flags)
