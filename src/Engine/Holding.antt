-- ===== src/Engine/Holding.antt =====
-- How often each stream is held after an operation of the engine (src/service/engine.cpp).
use Prim.Native.String.{String}
use tosdata_bridge.Prelude.{
  ℕ, ◌+◌, ◌-◌, ◌<◌, ◌≡◌, ◌≢◌, refl, sym, ap, subst, ◌∙◌, Bool, true, false, ◌&&◌, Option, none,
  some, arith, ◌==◌, if◌then◌else◌, Option-cases, Bool-cases, inl, inr,
}
use tosdata_bridge.Prelude.Int.{size_mod}
use tosdata_bridge.Prelude.Dict.{lookup, is_some, Every-lookup}
use tosdata_bridge.Topics.Enum.{Topic, null_topic}
use tosdata_bridge.Topics.Map.{topic_eq, text_eq}
use tosdata_bridge.Engine.State.{Engine}
use tosdata_bridge.Engine.Streams.{
  StreamStatus, done, bad_topic, no_topic, no_item, dde_post, dde_no_ack, shem_buffer, Answers,
  items_of, incr, decr, add_stream, remove_stream,
}
use tosdata_bridge.Engine.Counts.{held, count, IsHeld, IsOpen, IsTracked, raise, lower}
use tosdata_bridge.Engine.Tracking.{lookup-raise, lookup-lower}
use tosdata_bridge.Engine.Adding.{add_stream-null, add_stream-Added}
use tosdata_bridge.Engine.Removing.{is_missing, RemovedFrom, remove_stream-Removed}

-- Whether two streams are one.
abbrev pub same_stream : Topic → String → Topic → String → Bool
same_stream t i u j = text_eq.beq i j && topic_eq.beq t u

abbrev pub is_done : StreamStatus → Bool
is_done done = true
is_done _ = false

is_done-false : (e : StreamStatus) → e ≢ done → is_done e ≡ false
is_done-false done h = absurd (h refl)
is_done-false bad_topic h = refl
is_done-false no_topic h = refl
is_done-false no_item h = refl
is_done-false dde_post h = refl
is_done-false dde_no_ack h = refl
is_done-false shem_buffer h = refl

-- The count as a value that may be missing.
abbrev times : Option ℕ → ℕ
times none = 0
times (some n) = n

count-times :
    {X : Type 0} (t : Topic) (i : String) (s : Engine X)
    → count t i s ≡ times (lookup i (items_of t s.topic_refcounts))
count-times t i s = ground arith

times-raise :
    (b : Bool) (n : ℕ) (o : Option ℕ)
    → n + 1 < size_mod
    → times (if b then some (incr n) else o) ≡ (if b then n + 1 else times o)
times-raise true n o h = omega (arith, h)
times-raise false n o h = refl

times-lower :
    (b : Bool) (n : ℕ) (o : Option ℕ)
    → 0 < n
    → n < size_mod
    → times (if b then (if decr n == 0 then none else some (decr n)) else o)
      ≡ (if b then n - 1 else times o)
times-lower true n o h k = let e : decr n ≡ n - 1 = omega (arith, h, k) in ground (arith, h, e)
times-lower false n o h k = refl

missing-if : (b : Bool) → is_missing (if b then no_item else no_topic) ≡ true
missing-if true = refl
missing-if false = refl

pub same_stream-eq :
    (t : Topic) (i : String) (u : Topic) (j : String)
    → same_stream t i u j ≡ true
    → (t ≡ u) × (i ≡ j)
same_stream-eq t i u j h =
    ((topic_eq.beq_iff t u).0 (ground (arith, h)), (text_eq.beq_iff i j).0 (ground (arith, h)))

module _ {X : Type 0} {s : Engine X} (v : IsTracked s) where
  -- A stream that is kept is held, and by fewer than 2^64 clients.
  lookup-IsHeld :
      (t : Topic) (i : String) (n : ℕ)
      → lookup i (items_of t s.topic_refcounts) ≡ some n
      → IsHeld i n
  lookup-IsHeld t i n h = elim (Option-cases (lookup t s.topic_refcounts)) [
    | inl g ↦ absurd (ground (arith, h, g))
    | inr (items, g) ↦
        let p = (Every-lookup IsOpen t items s.topic_refcounts v.opened g).2 in
        Every-lookup IsHeld i n items p (ground (arith, h, g))
  ]

  module _ (t : Topic) (i : String) (a : Answers) where
    count-raise :
        count t i s + 1 < size_mod
        → (u : Topic) (j : String) (r : Engine X) → r.topic_refcounts ≡ raise t i s.topic_refcounts
        → count u j r ≡ (if same_stream t i u j then count t i s + 1 else count u j s)
    count-raise h u j r e =
        count-times u j r
        ∙ ap (λ m. times (lookup j (items_of u m))) e
        ∙ ap times (lookup-raise t i u j s.topic_refcounts)
        ∙ times-raise (same_stream t i u j) (count t i s) (lookup j (items_of u s.topic_refcounts))
            h
        ∙ ap (λ k. if same_stream t i u j then count t i s + 1 else k) (sym (count-times u j s))

    count-lower :
        (n : ℕ)
        → lookup i (items_of t s.topic_refcounts) ≡ some n
        → (u : Topic) (j : String) (r : Engine X) → r.topic_refcounts ≡ lower t i s.topic_refcounts
        → count u j r ≡ (if same_stream t i u j then count t i s - 1 else count u j s)
    count-lower n g u j r e =
        let c : count t i s ≡ n = count-times t i s ∙ ap times g in
        let h = lookup-IsHeld t i n g in
        count-times u j r
        ∙ ap (λ m. times (lookup j (items_of u m))) e
        ∙ ap times (lookup-lower t i u j s.topic_refcounts)
        ∙ times-lower (same_stream t i u j) (count t i s) (lookup j (items_of u s.topic_refcounts))
            (omega (arith, h, c)) (omega (arith, h, c))
        ∙ ap (λ k. if same_stream t i u j then count t i s - 1 else k) (sym (count-times u j s))

    -- `AddStream` holds the stream once more if it returns 0, and otherwise leaves all counts.
    pub add_stream-count :
        (blank : X)
        → count t i s + 1 < size_mod
        → (u : Topic) (j : String)
        → let r = add_stream blank t i a s in
          count u j r.1
          ≡ (if is_done r.0 && same_stream t i u j then count t i s + 1 else count u j s)
    add_stream-count blank h u j = elim (Bool-cases (topic_eq.beq t null_topic)) [
      | inl x ↦ rw (add_stream-null blank t i a s x)
      | inr x ↦
          let r = add_stream blank t i a s in
          elim (add_stream-Added blank t i a v x) [
            | inl (d, e, f) ↦ rw d (count-raise h u j r.1 e)
            | inr (d, e, f) ↦
                let c = is_done-false r.0 d in rw c (ap (λ m. held j (items_of u m)) e)
          ]
    ]

    count-zero :
        count t i s ≡ 0
        → (u : Topic) (j : String)
        → count u j s ≡ (if same_stream t i u j then count t i s - 1 else count u j s)
    count-zero c u j = elim (Bool-cases (same_stream t i u j)) [
      | inl h ↦ let (p, q) = same_stream-eq t i u j h in rw (h, ← p, ← q) (omega (arith, c))
      | inr h ↦ rw h
    ]

    -- `RemoveStream` of a topic other than the null topic holds the stream once less, whatever it
    -- returns, and leaves all other counts; its result says that there is no such stream exactly if
    -- it was not held.
    pub remove_stream-count :
        topic_eq.beq t null_topic ≡ false
        → let r = remove_stream t i a s in
          (is_missing r.0 ≡ (count t i s == 0))
          × ((u : Topic) (j : String)
              → count u j r.1 ≡ (if same_stream t i u j then count t i s - 1 else count u j s))
    remove_stream-count x =
        let r = remove_stream t i a s in
        elim (Option-cases (lookup i (items_of t s.topic_refcounts))) [
          | inl g ↦
              let (e, f) =
                subst (λ o. RemovedFrom t i a v o r.0 r.1) g (remove_stream-Removed t i a v x) in
              let c : count t i s ≡ 0 = count-times t i s ∙ ap times g in
              (
                ap is_missing f
                    ∙ missing-if (is_some (lookup t s.topic_refcounts))
                    ∙ ground (arith, c),
                λ u j. ap (λ z. count u j z) e ∙ count-zero c u j,
              )
          | inr (n, g) ↦
              let (b, e, f) =
                subst (λ o. RemovedFrom t i a v o r.0 r.1) g (remove_stream-Removed t i a v x) in
              let c : count t i s ≡ n = count-times t i s ∙ ap times g in
              let h = lookup-IsHeld t i n g in
              (b ∙ ground (arith, c, h), λ u j. count-lower n g u j r.1 e)
        ]
