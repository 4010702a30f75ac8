-- ===== src/Signals.antt =====
-- include/concurrency.hpp and src/concurrency.cpp: `SignalManager`, by which the engine's main thread
-- waits for what its message thread signals. It is the version for Windows, with one event for all
-- waits; each of its critical sections is one step.
pub mod Laws
mod Tests
use Prim.Native.String.{String}
use tosdata_bridge.Prelude.{
  Bool, true, false, ◌&&◌, Option, none, some, List, [], ◌∷◌, ◌++◌, if◌then◌else◌,
}
use tosdata_bridge.Prelude.Dict.{Eq, lookup, set_at}
use tosdata_bridge.Topics.Map.{text_eq}

-- `_unq_flags` is a multimap: an identifier may have several flags, of which `find` gives the
-- first. `_event` is reset by the wait that it ends.
pub record SignalManager : Type 0 where
  pub unq_flags : List (String × Bool)
  pub event : Bool

-- The constructor.
abbrev pub new_signals : SignalManager
new_signals = record { unq_flags = []; event = false }

-- `erase` of an iterator: the flag that `find` gave.
abbrev pub erase_one : String → List (String × Bool) → List (String × Bool)
erase_one id [] = []
erase_one id ((j, b) ∷ m) = if text_eq.beq j id then m else (j, b) ∷ erase_one id m

pub set_signal_id : String → SignalManager → SignalManager
set_signal_id id s = record s { unq_flags = s.unq_flags ++ (id, true) ∷ [] }

-- What it returns, and the state after it.
pub signal : String → Bool → SignalManager → Bool × SignalManager
signal id secondary s = elim (lookup id s.unq_flags) [
  | none ↦ (false, s)
  | some b ↦ (true, record { unq_flags = set_at id secondary s.unq_flags; event = true })
]

-- The calls of `signal` that another thread makes in a row.
pub signal_all : List (String × Bool) → SignalManager → SignalManager
signal_all [] s = s
signal_all ((id, b) ∷ calls) s = signal_all calls (signal id b s).1

-- The flag of an iterator.
abbrev pub flag_of : String → SignalManager → Bool
flag_of id s = elim (lookup id s.unq_flags) [ none ↦ false | some b ↦ b ]

-- `wait_for`: `early` are the calls of `signal` before `WaitForSingleObject` returns, and `late`
-- those from there to the critical section behind it. It times out if the event is not set.
pub wait_for :
    String → List (String × Bool) → List (String × Bool) → SignalManager → Bool × SignalManager
unfolding signal_all
wait_for id early late s = elim (lookup id s.unq_flags) [
  | none ↦ (false, s)
  | some b ↦
      let woken = signal_all early s in
      let t = signal_all late (record woken { event = false }) in
      (woken.event && flag_of id t, record t { unq_flags = erase_one id t.unq_flags })
]
