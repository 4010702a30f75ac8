-- ===== src/Engine/Reachable.antt =====
-- The engine (src/service/engine.cpp) from its start: events in a row, and their replies.
use Prim.Native.String.{String}
use tosdata_bridge.Prelude.{ℕ, ◌+◌, ◌<◌, ◌≤◌, ◌≡◌, refl, ap, ◌∙◌, List, [], ◌∷◌, arith, length}
use tosdata_bridge.Prelude.Int.{ℤ, size_mod}
use tosdata_bridge.Prelude.Dict.{nat_eq}
use tosdata_bridge.Prelude.Table.{pair_eq}
use tosdata_bridge.Topics.Enum.{Topic}
use tosdata_bridge.Topics.Map.{topic_eq, text_eq}
use tosdata_bridge.Engine.State.{Engine, new_engine}
use tosdata_bridge.Engine.Counts.{count, IsTracked}
use tosdata_bridge.Engine.Handling.{
  Event, message, arrive, deliver, happen, run, replies, handle_acks,
}
use tosdata_bridge.Engine.Balance.{balance, keep, handle_data-Kept, message-Balanced}

-- What the events and the replies say of a stream, in a row.
abbrev pub tally : {X : Type 0} → List (Event X × ℤ) → Topic → String → ℕ → ℕ
tally [] u j n = n
tally ((e, reply) ∷ log) u j n = tally log u j (balance e reply u j n)

module _ {X : Type 0} (blank : X) where
  happen-Balanced :
      (e : Event X) {s : Engine X}
      → IsTracked s
      → ((u : Topic) (j : String) → count u j s + 1 < size_mod)
      → IsTracked (happen blank e s).1
        × ((u : Topic) (j : String)
            → count u j (happen blank e s).1 ≡ balance e (happen blank e s).0 u j (count u j s))
  unfolding happen handle_acks
  happen-Balanced (message op t i a a') v h = message-Balanced blank v t i a a' (h t i) op
  happen-Balanced (arrive acks) {s} v h = keep blank v (handle_acks blank acks s) refl (λ u j. refl)
  happen-Balanced (deliver window i x) v h = handle_data-Kept blank v window i x

  balance-le :
      (e : Event X) (reply : ℤ) (u : Topic) (j : String) (n : ℕ) → balance e reply u j n ≤ n + 1
  balance-le (message op t i a a') reply u j n = ground arith
  balance-le (arrive acks) reply u j n = omega arith
  balance-le (deliver window i x) reply u j n = omega arith

  run-count :
      (events : List (Event X)) {s : Engine X}
      → IsTracked s
      → ((u : Topic) (j : String) → count u j s + length events < size_mod)
      → IsTracked (run blank events s)
        × ((u : Topic) (j : String)
            → count u j (run blank events s) ≡ tally (replies blank events s) u j (count u j s))
  unfolding run replies
  run-count [] v h = (v, λ u j. refl)
  run-count (e ∷ events) {s} v h =
      let r = happen blank e s in
      let (w, c) = happen-Balanced e v (λ u j. omega (arith, h u j)) in
      let (w', c') =
        run-count events {s = r.1} w
          (λ u j. omega (arith, h u j, c u j, balance-le e r.0 u j (count u j s))) in
      (w', λ u j. c' u j ∙ ap (tally (replies blank events r.1) u j) (c u j))

  pub new_engine-IsTracked : IsTracked {X = X} new_engine
  new_engine-IsTracked = record { topics_distinct = tt; opened = tt; buffered = λ t i. refl }

  -- After fewer than 2^64 events, in any order, an engine that started with nothing holds each
  -- stream as often as the replies say, keeps a topic just as long as it has items and a buffer
  -- just as long as its stream is held.
  pub run-new_engine :
      (events : List (Event X))
      → length events < size_mod
      → IsTracked (run blank events new_engine)
        × ((u : Topic) (j : String)
            → count u j (run blank events new_engine)
              ≡ tally (replies blank events new_engine) u j 0)
  run-new_engine events h =
      run-count events {s = new_engine} new_engine-IsTracked (λ u j. omega (arith, h))
