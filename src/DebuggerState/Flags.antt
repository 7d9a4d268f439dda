-- ===== src/DebuggerState/Flags.antt =====
-- The flags of src/DebugAdapterClient/DAP_Debugger_State.cpp over sequences of calls.
use debugger_dap.Common.{
  ℕ, zero, suc, ◌<◌, ◌≡◌, refl, Bool, true, false, not, ◌&&◌, ◌||◌, List, [], ◌∷◌, All, ltb, ltb→lt,
  arith,
}
use debugger_dap.DebuggerState.{
  not_connected, connected, stopped, running, initial, has_state, is_running, is_stopped,
  is_connected, is_busy, Call, add, remove, call, calls,
}

-- A test of the words below a bound, from the lowest on; four bits make the bound 16.
every_word : (ℕ → Bool) → ℕ → Bool
every_word test zero = true
every_word test (suc bound) = every_word test bound && test bound

every_word-at :
    (test : ℕ → Bool) (word bound : ℕ)
    → word < bound
    → every_word test bound ≡ true
    → test word ≡ true
unfolding every_word
every_word-at test word zero within passed = elim within [ ]
every_word-at test word (suc bound) within passed = ground (arith, every_word-at test word bound)

-- The session is not both connected and not connected.
abbrev disjoint : ℕ → Bool
disjoint word = not (has_state word connected && has_state word not_connected)

-- Four bits hold every flag.
abbrev sound_call : Call → ℕ → Bool
sound_call c word = ltb (call word c) 16 && (not (disjoint word) || disjoint (call word c))

sound_table : (c : Call) → every_word (sound_call c) 16 ≡ true
unfolding every_word call has_state
sound_table (add not_connected) = refl
sound_table (add connected) = refl
sound_table (add stopped) = refl
sound_table (add running) = refl
sound_table (remove not_connected) = refl
sound_table (remove connected) = refl
sound_table (remove stopped) = refl
sound_table (remove running) = refl

-- The plugin never takes the flag Stopped away by a call of its own.
abbrev pub KeepsStopped : Call → Type 0
KeepsStopped (remove stopped) = ⊥
KeepsStopped _ = Unit

abbrev paused_call : Call → ℕ → Bool
paused_call c word =
    not (is_stopped word) || (is_stopped (call word c) && not (is_busy (call word c)))

paused_table : (c : Call) → KeepsStopped c → every_word (paused_call c) 16 ≡ true
unfolding every_word call is_stopped is_busy
paused_table (add not_connected) k = refl
paused_table (add connected) k = refl
paused_table (add stopped) k = refl
paused_table (add running) k = refl
paused_table (remove not_connected) k = refl
paused_table (remove connected) k = refl
paused_table (remove stopped) k = elim k [ ]
paused_table (remove running) k = refl

-- `AddState`, and `RemoveState(Connected)`.
abbrev pub Settles : Call → Type 0
Settles (add _) = Unit
Settles (remove connected) = Unit
Settles (remove _) = ⊥

abbrev settled : ℕ → Bool
settled word = is_connected word || (is_stopped word && not (is_running word))

settled_table : (c : Call) → Settles c → every_word (λ word. settled (call word c)) 16 ≡ true
unfolding every_word call is_connected is_stopped is_running
settled_table (add not_connected) k = refl
settled_table (add connected) k = refl
settled_table (add stopped) k = refl
settled_table (add running) k = refl
settled_table (remove connected) k = refl
settled_table (remove not_connected) k = elim k [ ]
settled_table (remove stopped) k = elim k [ ]
settled_table (remove running) k = elim k [ ]

-- What holds of the word between two calls.
record IsSound (word : ℕ) : Type 0 where
  below : word < 16
  apart : disjoint word ≡ true

call-IsSound : (word : ℕ) (c : Call) → IsSound word → IsSound (call word c)
call-IsSound word c s =
    let row = every_word-at (sound_call c) word 16 s.below (sound_table c) in
    record { below = ltb→lt _ _ (ground arith); apart = ground (arith, s.apart) }

calls-IsSound : (word : ℕ) (cs : List Call) → IsSound word → IsSound (calls word cs)
unfolding calls
calls-IsSound word [] s = s
calls-IsSound word (c ∷ cs) s = calls-IsSound (call word c) cs (call-IsSound word c s)

initial-IsSound : IsSound initial
initial-IsSound = record { below = omega arith; apart = unfold has_state in refl }

-- Whatever calls of `AddState` and `RemoveState` follow the start, in any order, the flags
-- Connected and NotConnected are never both set.
pub connected_apart :
    (cs : List Call)
    → (is_connected (calls initial cs) && has_state (calls initial cs) not_connected) ≡ false
unfolding is_connected
connected_apart cs = ground (arith, (calls-IsSound initial cs initial-IsSound).apart)

-- After a sequence of calls from the start that ends in `AddState`, or in
-- `RemoveState(Connected)`, a session that is not connected is stopped and is not running.
pub settles :
    (cs : List Call) (c : Call)
    → Settles c
    → is_connected (call (calls initial cs) c) ≡ false
    → (is_stopped (call (calls initial cs) c) ≡ true)
      × (is_running (call (calls initial cs) c) ≡ false)
settles cs c k h =
    let row =
      every_word-at (λ word. settled (call word c)) (calls initial cs) 16
        (calls-IsSound initial cs initial-IsSound).below (settled_table c k) in
    ground (arith, row, h)

paused_row :
    (c : Call) (word : ℕ)
    → paused_call c word ≡ true
    → is_stopped word ≡ true
    → (is_stopped (call word c) ≡ true) × (is_busy (call word c) ≡ false)
paused_row c word row h = ground arith

is_busy_stopped : (word : ℕ) → is_stopped word ≡ true → is_busy word ≡ false
unfolding is_busy is_stopped
is_busy_stopped word h = ground arith

paused :
    (word : ℕ) (cs : List Call)
    → IsSound word
    → is_stopped word ≡ true
    → All KeepsStopped cs
    → is_busy word ≡ false
    → (is_stopped (calls word cs) ≡ true) × (is_busy (calls word cs) ≡ false)
unfolding calls
paused word [] s h k b = (h, b)
paused word (c ∷ cs) s h k b =
    let row = every_word-at (paused_call c) word 16 s.below (paused_table c k.0) in
    let (h', b') = paused_row c word row h in
    paused (call word c) cs (call-IsSound word c s) h' k.1 b'

-- Once the flag Stopped is set it stays set, and `IsBusy` stays false, whatever calls follow that
-- are not `RemoveState(Stopped)`: also after `AddState(Running)`, whose last line means to clear
-- the flag when the debugger is busy.
pub stopped_stays :
    (before after : List Call)
    → is_stopped (calls initial before) ≡ true
    → All KeepsStopped after
    → (is_stopped (calls (calls initial before) after) ≡ true)
      × (is_busy (calls (calls initial before) after) ≡ false)
stopped_stays before after h k =
    paused (calls initial before) after (calls-IsSound initial before initial-IsSound) h k
      (is_busy_stopped (calls initial before) h)
