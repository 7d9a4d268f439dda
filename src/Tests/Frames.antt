-- ===== src/Tests/Frames.antt =====
-- The call stack at concrete inputs.
use mathlib.Core.Option
use debugger_dap.Common.{◌⊎◌, ◌<◌, ◌≤◌, ◌≡◌, refl, arith, true, List, [], ◌∷◌, none, some}
use debugger_dap.Common.Int.{pos}
use debugger_dap.Protocol.Bodies.{StackFrame}
use debugger_dap.Breakpoints.State.{minus_one}
use debugger_dap.CallStack.{Host, State, shown_frames, on_stack_trace}
use debugger_dap.CallStack.Session.{Operation, stop, to_frame}
use debugger_dap.CallStack.Active.{on_stack_trace_lem}
use debugger_dap.Tests.Sessions.{example_library, ready}
use debugger_dap.Tests.Editing.{format_int, at_rest}
use debugger_dap.Tests.Saving.{long_of, long_of-format_int}
use debugger_dap.Tests.Answers.{inner_frame, outer_frame}

abbrev shell : Host
shell = record {
  library = example_library;
  format_int = format_int;
  to_long = long_of;
  to_long_long = λ _ _. none;
  has_dialog = true;
  auto_switch_frame = true;
}

-- Nothing shown, in a session that is stopped.
abbrev halted : State
halted = record {
  backtrace = [];
  current = record { stack_frame = minus_one; user_selected = minus_one; thread = minus_one };
  first_valid = minus_one;
  old_active_frame = pos 0;
  threads = [];
  current_thread = pos 0;
  flags = at_rest.flags;
  client = ready;
  trace = [];
}

abbrev two_frames : List StackFrame
two_frames = inner_frame ∷ outer_frame ∷ []

-- The user goes to the caller, and the program stops again in one frame.
abbrev visit : List Operation
visit = stop two_frames ∷ to_frame 1 ∷ stop (inner_frame ∷ []) ∷ []

abbrev caller_selected : State
caller_selected = record halted {
  current = record { stack_frame = pos 1; user_selected = pos 1; thread = minus_one };
}

-- A shorter backtrace without a reset in between.
beyond_frames : on_stack_trace shell (inner_frame ∷ []) caller_selected ≡ none
unfolding on_stack_trace Option.bind
beyond_frames = refl

on_stack_trace_example :
    ((1 < 2)
      × ((t : State) × (on_stack_trace shell two_frames caller_selected ≡ some t)
          × (t.backtrace ≡ shown_frames shell 0 two_frames)
          × (t.current.stack_frame ≡ pos 1)))
    ⊎ ((2 ≤ 1) × (on_stack_trace shell two_frames caller_selected ≡ none))
on_stack_trace_example =
    on_stack_trace_lem shell long_of-format_int refl two_frames caller_selected (omega arith)
