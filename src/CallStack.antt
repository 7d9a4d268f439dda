-- ===== src/CallStack.antt =====
-- The call stack and the threads: src/DebugAdapterClient/DAP_CallStack.cpp and .h, DAPCurrentFrame and
-- cbStackFrameXtn of definitions.h, HexStrToBinary of helpers.cpp. The reloading of dialogs and the
-- log are left out.
use mathlib.Core.Option
use debugger_dap.Common.{
  ℕ, zero, suc, ◌+◌, Bool, true, false, ◌&&◌, List, [], ◌∷◌, ◌++◌, Option, none, some, length, drop,
  map, ltb, if◌then◌else◌,
}
use debugger_dap.Common.Int.{ℤ, pos, negsuc, eq_ℤ, ltb_ℤ}
use debugger_dap.Text.{Text, codes, begins_with}
use debugger_dap.DebuggerState.{is_running, is_stopped}
use debugger_dap.Protocol.Bodies.{StackFrame, Thread}
use debugger_dap.Client.State.{Client}
use debugger_dap.Client.Send.{Library, Effect}
use debugger_dap.Client.Api.{get_frames, perform}
use debugger_dap.Breakpoints.State.{Done, told, synced, minus_one}
pub mod Range
pub mod Active
pub mod Session
pub mod Flags

-- The functions of wxWidgets and Code::Blocks.
pub record Host : Type 0 where
  pub library : Library
  pub format_int : ℤ → Text
  pub to_long : Text → Option ℤ
  -- the base comes first
  pub to_long_long : ℕ → Text → Option ℤ
  pub has_dialog : Bool
  pub auto_switch_frame : Bool

-- `cbStackFrameXtn`; an address that HexStrToBinary gives no value is `none`.
pub record Frame : Type 0 where
  pub number : ℤ
  pub file : Text
  pub line : Text
  pub symbol : Text
  pub dap_id : ℤ
  pub address : Option ℤ
  pub is_valid : Bool

-- `DAPCurrentFrame`, without the position, which nothing sets.
pub record CurrentFrame : Type 0 where
  pub stack_frame : ℤ
  pub user_selected : ℤ
  pub thread : ℤ

-- `cbThread`
pub record ShownThread : Type 0 where
  pub is_active : Bool
  pub id : ℤ
  pub name : Text

-- The members, the word of the session's flags, the client, and what was done.
pub record State : Type 0 where
  pub backtrace : List Frame
  pub current : CurrentFrame
  pub first_valid : ℤ
  pub old_active_frame : ℤ
  pub threads : List ShownThread
  pub current_thread : ℤ
  pub flags : ℕ
  pub client : Client
  pub trace : List Done

-- `DAPCurrentFrame::Reset`
unfoldable pub reset_frame : CurrentFrame → CurrentFrame
reset_frame f = record f { stack_frame = minus_one; user_selected = minus_one }

-- `DAPSwitchToFrame`
unfoldable pub switch_frame : ℤ → CurrentFrame → CurrentFrame
switch_frame number f = record f { stack_frame = number; user_selected = number }

-- `SetFrame`
unfoldable pub set_frame : ℤ → CurrentFrame → CurrentFrame
set_frame number f =
    if ltb_ℤ f.user_selected (pos 0)
    then record f { stack_frame = number }
    else record f { stack_frame = f.user_selected }

-- `m_backtrace[index]`; `none` outside of the container.
unfoldable pub frame_at : List Frame → ℤ → Option Frame
frame_at [] index = none
frame_at (f ∷ rest) (pos zero) = some f
frame_at (f ∷ rest) (pos (suc n)) = frame_at rest (pos n)
frame_at frames (negsuc n) = none

-- `DAPDebuggerResetData`
unfoldable pub reset_data : State → State
unfolding reset_frame
reset_data s = record s { backtrace = []; current = reset_frame s.current }

-- `ClearThreads`
unfoldable pub clear_threads : State → State
clear_threads s = record s { threads = [] }

-- `OnThreadsResponse`, of a response
unfoldable pub on_threads_response : List Thread → State → State
on_threads_response threads s = record s { threads = map (show s.current_thread) threads }
  where
    show : ℤ → Thread → ShownThread
    show current t = record { is_active = eq_ℤ t.id current; id = t.id; name = t.name }

module _ (host : Host) where
  -- `HexStrToBinary`
  unfoldable pub hex_to_binary : Text → Option ℤ
  unfolding begins_with
  hex_to_binary text =
      host.to_long_long 16 (if begins_with text (codes "0x") then drop 2 text else text)

  -- The editor goes to a frame, which is then the selected one; `none` where its line has no value.
  unfoldable pub select_frame : ℤ → State → Frame → Option State
  unfolding switch_frame
  select_frame number s f =
      Option.map
        (λ n. record s {
          current = switch_frame number s.current;
          trace = s.trace ++ synced (Frame.file f) n ∷ [];
        })
        (host.to_long (Frame.line f))

  -- `SwitchToFrame`; `none` where the frame is not in the container or its line has no value.
  unfoldable pub switch_to_frame : ℤ → State → Option State
  unfolding is_running is_stopped frame_at select_frame
  switch_to_frame number s =
      if is_running s.flags && is_stopped s.flags && ltb_ℤ number (pos (length s.backtrace))
      then Option.bind (frame_at s.backtrace number) (select_frame number s)
      else some s

  -- `SwitchToThread`
  unfoldable pub switch_to_thread : ℤ → State → State × Bool
  unfolding is_running is_stopped reset_frame
  switch_to_thread number s =
      if is_running s.flags && is_stopped s.flags then (asked, true) else (s, false)
    where
      asked : State
      asked =
          let (c, effects) = perform host.library (get_frames number) s.client in
          let fresh = reset_frame s.current in
          record s {
            current = record fresh { thread = number };
            client = c;
            trace = s.trace ++ map told effects;
          }

  -- A frame of the response, under its number.
  unfoldable pub shown_frame : ℕ → StackFrame → Frame
  unfolding hex_to_binary
  shown_frame number f = record {
    number = pos number;
    file = f.source.path;
    line = host.format_int f.line;
    symbol = f.name;
    dap_id = f.id;
    address = hex_to_binary f.instruction_pointer_reference;
    is_valid = true;
  }

  -- The loop over the frames.
  unfoldable pub shown_frames : ℕ → List StackFrame → List Frame
  unfolding shown_frame
  shown_frames number [] = []
  shown_frames number (f ∷ rest) = shown_frame number f ∷ shown_frames (suc number) rest

  -- `m_first_valid` after the loop: all frames are valid.
  unfoldable pub first_of : List StackFrame → ℤ
  first_of [] = minus_one
  first_of (f ∷ rest) = pos 0

  -- The frame that becomes the active one.
  unfoldable pub chosen_frame : ℤ → ℤ → ℤ
  chosen_frame selected first =
      let automatic =
        if ltb_ℤ selected (pos 0) && host.auto_switch_frame then first else selected in
      if ltb_ℤ automatic (pos 0) then pos 0 else automatic

  -- A frame is compared with the old active one and gone to.
  unfoldable pub go_to_frame : State → Frame → Option State
  unfolding switch_to_frame
  go_to_frame s f =
      if eq_ℤ s.old_active_frame (Frame.number f)
      then some s
      else switch_to_frame (Frame.number f) s

  unfoldable pub set_active : State → State
  unfolding chosen_frame set_frame
  set_active s =
      let frame = chosen_frame s.current.user_selected s.first_valid in
      record s { current = set_frame frame s.current }

  -- The frame that is shown when the frames are not empty.
  unfoldable pub activate : State → Option State
  unfolding set_active chosen_frame frame_at go_to_frame
  activate s =
      Option.bind (frame_at s.backtrace (chosen_frame s.current.user_selected s.first_valid))
        (go_to_frame (set_active s))

  -- `OnStackTrace`, of a response
  unfoldable pub on_stack_trace : List StackFrame → State → Option State
  unfolding shown_frames first_of activate
  on_stack_trace frames s =
      let shown : State = record s {
        backtrace = shown_frames 0 frames;
        first_valid = first_of frames;
      } in
      if host.has_dialog && ltb 0 (length shown.backtrace) then activate shown else some shown
