-- ===== src/Protocol/Bodies/RoundTrip.antt =====
-- The responses of Protocol/Bodies, read back from what is written.
use debugger_dap.Common.{◌≡◌, ap, List, ◌++◌, some, All, All-mono}
use debugger_dap.Json.Strings.{Encoding, EncodingLaws}
use debugger_dap.Protocol.Bodies.{
  Response, Thread, thread_to, thread_from, StackFrame, stack_frame_to, stack_frame_from, Scope,
  scope_to, scope_from, Variable, variable_to, variable_from, Breakpoint, breakpoint_to,
  breakpoint_from, threads_response_to, threads_response_from, stack_trace_response_to,
  stack_trace_response_from, scopes_response_to, scopes_response_from, variables_response_to,
  variables_response_from, set_breakpoints_response_to, set_breakpoints_response_from,
}
use debugger_dap.Protocol.Bodies.Back.{
  IsFaithfulResponse, IsFaithfulThread, IsFaithfulFrame, IsFaithfulScope, IsFaithfulVariable,
  IsFaithfulBreakpoint, thread_back, stack_frame_back, scope_back, variable_back, breakpoint_back,
  list_back,
}

module _ (encoding : Encoding) (laws : EncodingLaws encoding) where
  -- Where the conversions leave texts of ASCII without NUL alone, and all texts are such, reading the
  -- tree of a response to `threads` gives back its head and the threads, in order.
  pub threads_response_round_trip :
      (r : Response) (threads : List Thread)
      → IsFaithfulResponse r
      → All IsFaithfulThread threads
      → threads_response_from encoding (some (threads_response_to encoding r threads))
        ≡ (r, threads)
  unfolding threads_response_from threads_response_to
  threads_response_round_trip r threads h items =
      list_back encoding laws "threads" (thread_to encoding) (thread_from encoding) r threads h (
        All-mono IsFaithfulThread (λ a. thread_from encoding (some (thread_to encoding a)) ≡ a)
          (thread_back encoding laws) threads items)

  -- Where the conversions leave texts of ASCII without NUL alone, and all texts are such, reading the
  -- tree of a response to `stackTrace` gives back its head and the frames with their sources, in
  -- order, where no source has a negative reference.
  pub stack_trace_response_round_trip :
      (r : Response) (frames : List StackFrame)
      → IsFaithfulResponse r
      → All IsFaithfulFrame frames
      → stack_trace_response_from encoding (some (stack_trace_response_to encoding r frames))
        ≡ (r, frames)
  unfolding stack_trace_response_from stack_trace_response_to
  stack_trace_response_round_trip r frames h items =
      list_back encoding laws "stackFrames" (stack_frame_to encoding) (stack_frame_from encoding) r
        frames h
        (All-mono IsFaithfulFrame
          (λ a. stack_frame_from encoding (some (stack_frame_to encoding a)) ≡ a)
          (stack_frame_back encoding laws) frames items)

  -- Where the conversions leave texts of ASCII without NUL alone, and all texts that are written are
  -- such, reading the tree of a response to `scopes` gives back its head, and the scopes in order
  -- behind those that the message holds already.
  pub scopes_response_round_trip :
      (r : Response) (held scopes : List Scope)
      → IsFaithfulResponse r
      → All IsFaithfulScope scopes
      → scopes_response_from encoding held (some (scopes_response_to encoding r scopes))
        ≡ (r, held ++ scopes)
  unfolding scopes_response_from scopes_response_to
  scopes_response_round_trip r held scopes h items =
      ap (λ p. let q : Response × List Scope = p in (q.0, held ++ q.1))
        (list_back encoding laws "scopes" (scope_to encoding) (scope_from encoding) r scopes h (
          All-mono IsFaithfulScope (λ a. scope_from encoding (some (scope_to encoding a)) ≡ a)
            (scope_back encoding laws) scopes items))

  -- Where the conversions leave texts of ASCII without NUL alone, and all texts that are written are
  -- such, reading the tree of a response to `variables` gives back its head, and the variables with
  -- their hints in order behind those that the message holds already.
  pub variables_response_round_trip :
      (r : Response) (held variables : List Variable)
      → IsFaithfulResponse r
      → All IsFaithfulVariable variables
      → variables_response_from encoding held (some (variables_response_to encoding r variables))
        ≡ (r, held ++ variables)
  unfolding variables_response_from variables_response_to
  variables_response_round_trip r held variables h items =
      ap (λ p. let q : Response × List Variable = p in (q.0, held ++ q.1))
        (list_back encoding laws "variables" (variable_to encoding) (variable_from encoding) r
          variables h
          (All-mono IsFaithfulVariable
            (λ a. variable_from encoding (some (variable_to encoding a)) ≡ a)
            (variable_back encoding laws) variables items))

  -- Where the conversions leave texts of ASCII without NUL alone, and all texts are such, reading the
  -- tree of a response to `setBreakpoints` gives back its head and the breakpoints with their
  -- sources, in order, where no source has a negative reference.
  pub set_breakpoints_response_round_trip :
      (r : Response) (breakpoints : List Breakpoint)
      → IsFaithfulResponse r
      → All IsFaithfulBreakpoint breakpoints
      → set_breakpoints_response_from encoding
          (some (set_breakpoints_response_to encoding r breakpoints))
        ≡ (r, breakpoints)
  unfolding set_breakpoints_response_from set_breakpoints_response_to
  set_breakpoints_response_round_trip r breakpoints h items =
      list_back encoding laws "breakpoints" (breakpoint_to encoding) (breakpoint_from encoding) r
        breakpoints h
        (All-mono IsFaithfulBreakpoint
          (λ a. breakpoint_from encoding (some (breakpoint_to encoding a)) ≡ a)
          (breakpoint_back encoding laws) breakpoints items)
