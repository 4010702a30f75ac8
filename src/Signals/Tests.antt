-- ===== src/Signals/Tests.antt =====
-- Waits of a `SignalManager` (src/concurrency.cpp), and the theorem at a concrete input.
use tosdata_bridge.Prelude.{◌≡◌, refl, true, false, [], ◌∷◌}
use tosdata_bridge.Signals.{signal, signal_all, set_signal_id, wait_for, new_signals}
use tosdata_bridge.Signals.Laws.{wait_for-set}

-- A wait that times out; the signal for it comes before the flag is erased, and leaves the event set.
late_signal :
    wait_for "7SPY" [] (("7SPY", true) ∷ []) (set_signal_id "7SPY" new_signals)
    ≡ (false, record { unq_flags = []; event = true })
unfolding wait_for signal_all set_signal_id signal
late_signal = refl

-- The next wait returns true, with no signal for it.
stale_event :
    wait_for "7QQQ" [] [] (set_signal_id "7QQQ" (record { unq_flags = []; event = true }))
    ≡ (true, record { unq_flags = []; event = false })
unfolding wait_for signal_all set_signal_id
stale_event = refl

wait_for-set_example :
    wait_for "7SPY"
      (("7QQQ", true) ∷ ("7SPY", false) ∷ [])
      (("7SPY", true) ∷ [])
      (set_signal_id "7SPY" (record { unq_flags = []; event = false }))
    ≡ (true, record { unq_flags = []; event = true })
wait_for-set_example =
    wait_for-set "7SPY" (("7QQQ", true) ∷ ("7SPY", false) ∷ []) (("7SPY", true) ∷ []) false
