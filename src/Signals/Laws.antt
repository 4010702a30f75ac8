-- ===== src/Signals/Laws.antt =====
-- `SignalManager` (src/concurrency.cpp): what a wait leaves, and when it returns true.
use Prim.Native.String.{String}
use tosdata_bridge.Prelude.{◌≡◌, refl, Bool, true, false, ◌&&◌, List, [], ◌∷◌, arith, if◌then◌else◌}
use tosdata_bridge.Prelude.Dict.{beq_refl}
use tosdata_bridge.Topics.Map.{text_eq}
use tosdata_bridge.Signals.{SignalManager, set_signal_id, signal, signal_all, wait_for}

-- One wait at a time: an identifier is set, and nothing else.
abbrev pub armed : String → Bool → Bool → SignalManager
armed id b e = record { unq_flags = (id, b) ∷ []; event = e }

-- What the calls say of an identifier in the end, from what was said before.
abbrev pub last_word : String → Bool → List (String × Bool) → Bool
last_word id b [] = b
last_word id b ((j, c) ∷ calls) = last_word id (if text_eq.beq id j then c else b) calls

-- Whether any of the calls is of the identifier.
abbrev pub is_called : String → List (String × Bool) → Bool
is_called id [] = false
is_called id ((j, c) ∷ calls) = if text_eq.beq id j then true else is_called id calls

signal-armed :
    (id j : String) (c b e : Bool)
    → (signal j c (armed id b e)).1 ≡ (if text_eq.beq id j then armed id c true else armed id b e)
unfolding signal
signal-armed id j c b e = ground arith

signal_all-armed :
    (id : String) (calls : List (String × Bool)) (b e : Bool)
    → signal_all calls (armed id b e)
      ≡ armed id (last_word id b calls) (if is_called id calls then true else e)
unfolding signal_all
signal_all-armed id [] b e = refl
signal_all-armed id ((j, c) ∷ calls) b e = ground (
  arith,
  signal-armed id j c b e,
  signal_all-armed id calls c true,
  signal_all-armed id calls b e,
)

-- Calls of `signal` for no identifier that is set change nothing.
pub signal_all-unset :
    (calls : List (String × Bool)) (e : Bool)
    → let s : SignalManager = record { unq_flags = []; event = e } in signal_all calls s ≡ s
unfolding signal_all signal
signal_all-unset [] e = refl
signal_all-unset ((j, c) ∷ calls) e = signal_all-unset calls e

-- The wait for an identifier that has just been set, where nothing else is: it returns true
-- exactly if it is woken, by a signal for the identifier or by an event that was still set, and the
-- last signal for it before its end is good, or there was none. No identifier is left; the
-- event is left set exactly if a signal for the identifier came between the wake and the end.
pub wait_for-set :
    (id : String) (early late : List (String × Bool)) (e : Bool)
    → wait_for id early late (set_signal_id id (record { unq_flags = []; event = e })) ≡ (
      (if is_called id early then true else e) && last_word id (last_word id true early) late,
      record { unq_flags = []; event = is_called id late },
    )
unfolding wait_for set_signal_id
wait_for-set id early late e = ground (
  arith,
  signal_all-armed id early true e,
  signal_all-armed id late (last_word id true early) false,
  beq_refl id,
)
