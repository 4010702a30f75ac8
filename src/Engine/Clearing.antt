-- ===== src/Engine/Clearing.antt =====
-- `TestStream` and `RemoveAllStreams` (src/service/engine.cpp): the counts after them.
use mathlib.Core.Bool.{false≢true}
use Prim.Native.String.{String}
use tosdata_bridge.Prelude.{
  ℕ, ◌+◌, ◌-◌, ◌<◌, ◌≡◌, refl, sym, ap, ap₂, subst, ◌∙◌, Bool, true, false, ◌&&◌, List, [], ◌∷◌,
  arith, if◌then◌else◌, Bool-cases, inl, inr,
}
use tosdata_bridge.Prelude.Int.{size_mod}
use tosdata_bridge.Prelude.Dict.{
  lookup, is_some, keys, contains, contains-keys, Distinct, Every, beq_refl,
}
use tosdata_bridge.Topics.Enum.{Topic, null_topic}
use tosdata_bridge.Topics.Map.{topic_eq, text_eq}
use tosdata_bridge.Engine.State.{Engine, ItemRefcounts}
use tosdata_bridge.Engine.Streams.{
  Answers, items_of, add_stream, remove_stream, test_stream, remove_items, remove_topics,
  remove_all_streams,
}
use tosdata_bridge.Engine.Counts.{count, IsOpen, IsTracked}
use tosdata_bridge.Engine.Adding.{add_stream-null}
use tosdata_bridge.Engine.Holding.{
  same_stream, is_done, same_stream-eq, add_stream-count, remove_stream-count,
}
use tosdata_bridge.Engine.Invariant.{add_stream-IsTracked, remove_stream-IsTracked}

module _ {X : Type 0} {s : Engine X} (v : IsTracked s) where
  module _ (blank : X) (t : Topic) (i : String) (a a' : Answers) where
    test_done :
        let r = add_stream blank t i a s in
        is_done r.0 ≡ true → test_stream blank t i a a' s ≡ remove_stream t i a' r.1
    unfolding test_stream
    test_done h = ground (arith, h)

    test_failed :
        let r = add_stream blank t i a s in
        is_done r.0 ≡ false → (test_stream blank t i a a' s).1 ≡ r.1
    unfolding test_stream
    test_failed h = ground (arith, h)

    done-not_null : is_done (add_stream blank t i a s).0 ≡ true → topic_eq.beq t null_topic ≡ false
    done-not_null h = elim (Bool-cases (topic_eq.beq t null_topic)) [
      | inl x ↦
          absurd (false≢true (ap (λ r. is_done r.0) (sym (add_stream-null blank t i a s x)) ∙ h))
      | inr x ↦ x
    ]

    back :
        is_done (add_stream blank t i a s).0 ≡ true
        → count t i s + 1 < size_mod
        → (u : Topic) (j : String)
        → let s1 = (add_stream blank t i a s).1 in
          (if same_stream t i u j then count t i s1 - 1 else count u j s1) ≡ count u j s
    back d h u j =
        let s1 = (add_stream blank t i a s).1 in
        let p = add_stream-count v t i a blank h in
        elim (Bool-cases (same_stream t i u j)) [
          | inl b ↦
              let (x, y) = same_stream-eq t i u j b in
              let q : count t i s1 ≡ count t i s + 1 =
                p t i ∙ ground (arith, d, beq_refl t, beq_refl i) in
              rw b (omega (arith, q, ap₂ (λ k l. count k l s) x y))
          | inr b ↦ rw b (p u j ∙ ground (arith, d, b))
        ]

    pub test_stream-IsTracked :
        count t i s + 1 < size_mod → IsTracked (test_stream blank t i a a' s).1
    test_stream-IsTracked h =
        let w = add_stream-IsTracked t i a v blank h in
        elim (Bool-cases (is_done (add_stream blank t i a s).0)) [
          | inl d ↦
              subst (λ z. IsTracked z.1) (sym (test_done d)) (remove_stream-IsTracked t i a' w)
          | inr d ↦ subst IsTracked (sym (test_failed d)) w
        ]

    -- `TestStream` leaves all counts, whatever it returns.
    pub test_stream-count :
        count t i s + 1 < size_mod
        → (u : Topic) (j : String) → count u j (test_stream blank t i a a' s).1 ≡ count u j s
    test_stream-count h u j =
        let r = add_stream blank t i a s in
        let w = add_stream-IsTracked t i a v blank h in
        let p = add_stream-count v t i a blank h in
        elim (Bool-cases (is_done r.0)) [
          | inl d ↦
              ap (λ z. count u j z.1) (test_done d)
              ∙ (remove_stream-count w t i a' (done-not_null d)).1 u j
              ∙ back d h u j
          | inr d ↦ ap (count u j) (test_failed d) ∙ p u j ∙ ground (arith, d)
        ]

loop-step :
    (b c d : Bool) (x y z : ℕ)
    → x ≡ (if b && d then z - 1 else y)
    → (b ≡ true → c ≡ false)
    → ((b && d) ≡ true → z ≡ y)
    → (if c && d then x - 1 else x) ≡ (if (if b then true else c) && d then y - 1 else y)
loop-step true c true x y z e f g = rw (f refl) (omega (arith, e, g refl))
loop-step true c false x y z e f g = rw (f refl) (omega (arith, e))
loop-step false true true x y z e f g = omega (arith, e)
loop-step false true false x y z e f g = e
loop-step false false d x y z e f g = e

-- The counts after the loop over the first topic, and those after the loop over the others.
topic-step :
    (t : Topic) (items : ItemRefcounts) (m : List (Topic × ItemRefcounts)) (u : Topic) (j : String)
    (x y : ℕ)
    → contains t (keys m) ≡ false
    → x ≡ (if contains j (keys items) && topic_eq.beq t u then y - 1 else y)
    → (if is_some (lookup j (items_of u m)) then x - 1 else x)
      ≡ (if is_some (lookup j (items_of u ((t, items) ∷ m))) then y - 1 else y)
topic-step t items m u j x y d e = elim (Bool-cases (topic_eq.beq t u)) [
  | inl b ↦
      let k : is_some (lookup u m) ≡ false =
        ap (λ w. is_some (lookup w m)) (sym ((topic_eq.beq_iff t u).0 b))
        ∙ sym (contains-keys t m)
        ∙ d in
      ground (arith, e, b, k, contains-keys j items)
  | inr b ↦ ground (arith, e, b)
]

module _ {X : Type 0} (a : Topic → String → Answers) where
  -- The loop over the items of a topic, of which no two are one.
  remove_items-count :
      (t : Topic) (items : List String) {s : Engine X}
      → topic_eq.beq t null_topic ≡ false
      → Distinct items
      → IsTracked s
      → IsTracked (remove_items t items a s)
        × ((u : Topic) (j : String)
            → count u j (remove_items t items a s)
              ≡ (if contains j items && topic_eq.beq t u then count u j s - 1 else count u j s))
  unfolding remove_items
  remove_items-count t [] x d v = (v, λ u j. refl)
  remove_items-count t (i ∷ items) {s} x d v =
      let s1 = (remove_stream t i (a t i) s).1 in
      let v1 = remove_stream-IsTracked t i (a t i) v in
      let c = (remove_stream-count v t i (a t i) x).1 in
      let (w, r) = remove_items-count t items {s = s1} x d.1 v1 in
      (
        w,
        λ u j.
            r u j
            ∙ loop-step (text_eq.beq i j) (contains j items) (topic_eq.beq t u) (count u j s1)
                (count u j s) (count t i s) (c u j) (λ e. rw (← (text_eq.beq_iff i j).0 e) d.0)
                (λ e. let (p, q) = same_stream-eq t i u j e in ap₂ (λ k l. count k l s) p q),
      )

  -- The loop over the topics of a copy of the map.
  remove_topics-count :
      (m : List (Topic × ItemRefcounts)) {s : Engine X}
      → Every IsOpen m
      → Distinct (keys m)
      → IsTracked s
      → IsTracked (remove_topics m a s)
        × ((u : Topic) (j : String)
            → count u j (remove_topics m a s)
              ≡ (if is_some (lookup j (items_of u m)) then count u j s - 1 else count u j s))
  unfolding remove_topics
  remove_topics-count [] o d v = (v, λ u j. refl)
  remove_topics-count ((t, items) ∷ m) {s} o d v =
      let (w, r) = remove_items-count t (keys items) {s = s} o.0.3 o.0.0 v in
      let (w', r') = remove_topics-count m {s = remove_items t (keys items) a s} o.1 d.1 w in
      (
        w',
        λ u j.
            r' u j
            ∙ topic-step t items m u j (count u j (remove_items t (keys items) a s)) (count u j s)
                d.0 (r u j),
      )

  -- `RemoveAllStreams` lets go of each stream once: a stream that is held more than once stays.
  pub remove_all_streams-count :
      {s : Engine X}
      → IsTracked s
      → IsTracked (remove_all_streams a s)
        × ((u : Topic) (j : String) → count u j (remove_all_streams a s) ≡ count u j s - 1)
  unfolding remove_all_streams
  remove_all_streams-count {s} v =
      let (w, r) = remove_topics-count s.topic_refcounts {s = s} v.opened v.topics_distinct v in
      (w, λ u j. r u j ∙ ground arith)
