-- ===== src/DebuggerState.antt =====
-- The flags of the debugging session: src/DebugAdapterClient/DAP_Debugger_State.cpp and .h.
-- The static word `DAPDebuggerState` is a number; the member functions return the new word.
pub mod Flags
use Prim.Native.Nat.{bit_and, bit_or, bit_xor}
use debugger_dap.Common.{ℕ, Bool, true, false, not, ◌&&◌, List, [], ◌∷◌, ◌==◌, if◌then◌else◌}

-- `eDAPState`
pub data Flag : Type 0 where
  not_connected connected stopped running : Flag

-- The value of the enumerator.
abbrev pub mask : Flag → ℕ
mask not_connected = 0x1
mask connected = 0x2
mask stopped = 0x4
mask running = 0x8

-- The initial value of the word.
abbrev pub initial : ℕ
initial = mask not_connected

-- The complement of an unsigned int.
abbrev complement : ℕ → ℕ
complement m = bit_xor m 0xffffffff

unfoldable pub has_state : ℕ → Flag → Bool
has_state word flag = not (bit_and word (mask flag) == 0)

unfoldable pub is_running : ℕ → Bool
unfolding has_state
is_running word = has_state word running

unfoldable pub is_stopped : ℕ → Bool
unfolding has_state
is_stopped word = has_state word stopped

unfoldable pub is_connected : ℕ → Bool
unfolding has_state
is_connected word = has_state word connected

unfoldable pub is_busy : ℕ → Bool
unfolding has_state
is_busy word = has_state word connected && (has_state word running && not (has_state word stopped))

unfoldable pub is_connected_flag : Flag → Bool
is_connected_flag connected = true
is_connected_flag _ = false

unfoldable pub remove_state : ℕ → Flag → ℕ
unfolding is_connected_flag
remove_state word flag =
    let cleared = bit_and word (complement (mask flag)) in
    if is_connected_flag flag
    then bit_or (bit_and cleared (complement (mask running))) (mask stopped)
    else cleared

-- The second operand of `IsConnected() and NotConnected` is the enumerator, which is not 0.
unfoldable pub add_state : ℕ → Flag → ℕ
unfolding remove_state is_connected is_busy
add_state word flag =
    let added = bit_or word (mask flag) in
    let linked =
      if is_connected added && not (mask not_connected == 0)
      then remove_state added not_connected
      else added in
    let idle =
      if not (is_connected linked)
      then bit_or (remove_state (remove_state linked connected) running) (mask stopped)
      else linked in
    if is_busy idle then remove_state idle stopped else idle

-- The calls that the plugin makes.
pub data Call : Type 0 where
  add : Flag → Call
  remove : Flag → Call

unfoldable pub call : ℕ → Call → ℕ
unfolding add_state remove_state
call word (add flag) = add_state word flag
call word (remove flag) = remove_state word flag

unfoldable pub calls : ℕ → List Call → ℕ
unfolding call
calls word [] = word
calls word (c ∷ rest) = calls (call word c) rest
