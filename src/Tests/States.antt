-- ===== src/Tests/States.antt =====
-- The flags of the session at concrete inputs.
use debugger_dap.Common.{◌≡◌, refl, true, false, ◌&&◌, List, [], ◌∷◌}
use debugger_dap.DebuggerState.{
  connected, not_connected, stopped, running, initial, has_state, is_running, is_stopped,
  is_connected, is_busy, add_state, remove_state, Call, add, remove, call, calls,
}
use debugger_dap.DebuggerState.Flags.{connected_apart, settles, stopped_stays}

abbrev connecting : List Call
connecting = add connected ∷ add running ∷ []

abbrev pausing : List Call
pausing = add connected ∷ add stopped ∷ []

abbrev going_on : List Call
going_on = add running ∷ remove running ∷ add connected ∷ []

-- A session that runs is busy; one that has stopped before it runs again is not.
connecting_busy : is_busy (calls initial connecting) ≡ true
unfolding is_busy has_state calls call add_state remove_state is_connected
connecting_busy = refl

resumed_not_busy : is_busy (calls initial (add connected ∷ add stopped ∷ add running ∷ [])) ≡ false
unfolding is_busy has_state calls call add_state remove_state is_connected
resumed_not_busy = refl

connected_apart_example :
    (is_connected (calls initial connecting) && has_state (calls initial connecting) not_connected)
    ≡ false
connected_apart_example = connected_apart connecting

not_connected_now : is_connected (call (calls initial connecting) (remove connected)) ≡ false
unfolding has_state calls call add_state remove_state is_connected is_busy
not_connected_now = refl

settles_example :
    (is_stopped (call (calls initial connecting) (remove connected)) ≡ true)
    × (is_running (call (calls initial connecting) (remove connected)) ≡ false)
settles_example = settles connecting (remove connected) tt not_connected_now

stopped_now : is_stopped (calls initial pausing) ≡ true
unfolding is_stopped has_state calls call add_state remove_state is_connected is_busy
stopped_now = refl

stopped_stays_example :
    (is_stopped (calls (calls initial pausing) going_on) ≡ true)
    × (is_busy (calls (calls initial pausing) going_on) ≡ false)
stopped_stays_example = stopped_stays pausing going_on stopped_now (tt, (tt, (tt, tt)))
