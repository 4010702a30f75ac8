-- ===== src/Engine/Counts.antt =====
-- What the operations of the engine (src/service/engine.cpp) do to the counts of the streams and to
-- their buffers.
use Prim.Native.String.{String}
use tosdata_bridge.Prelude.{
  ℕ, ◌<◌, ◌≡◌, ◌≢◌, refl, ap, ◌∙◌, ◌⊎◌, false, none, some, List, is_nil, arith, ◌==◌, if◌then◌else◌,
  Bool-cases, inl, inr,
}
use tosdata_bridge.Prelude.Int.{size_mod}
use tosdata_bridge.Prelude.Dict.{
  nat_eq, lookup, erase, insert, is_some, keys, Distinct, Every, beq_refl,
}
use tosdata_bridge.Prelude.Table.{pair_eq, put, lookup-put, put-put, erase-put, erase_absent}
use tosdata_bridge.Topics.Enum.{Topic, null_topic}
use tosdata_bridge.Topics.Map.{topic_eq, text_eq}
use tosdata_bridge.Engine.State.{Engine, ItemRefcounts}
use tosdata_bridge.Engine.Streams.{
  done, dde_post, dde_no_ack, shem_buffer, Answers, stream_buffer, items_of, incr, decr, wait_ack,
  post_item, post_close_item, create_stream_buffer, create_item, close_topic, unwind_post, unwind,
}

-- How often a stream is held, 0 if there is none.
abbrev pub held : String → ItemRefcounts → ℕ
held i items = elim (lookup i items) [ none ↦ 0 | some n ↦ n ]

abbrev pub count : {X : Type 0} → Topic → String → Engine X → ℕ
count t i s = held i (items_of t s.topic_refcounts)

abbrev pub IsHeld : String → ℕ → Type 0
IsHeld i n = (0 < n) × (n < size_mod)

-- A topic that is kept is not the null topic, and has items, each of them held.
abbrev pub IsOpen : Topic → ItemRefcounts → Type 0
IsOpen t items =
    Distinct (keys items)
    × (is_nil items ≡ false)
    × Every IsHeld items
    × (topic_eq.beq t null_topic ≡ false)

pub record IsTracked {X : Type 0} (s : Engine X) : Type 0 where
  pub topics_distinct : Distinct (keys s.topic_refcounts)
  pub opened : Every IsOpen s.topic_refcounts
  pub buffered :
      (t : Topic) (i : String)
      → is_some (lookup (i, t) s.buffers) ≡ is_some (lookup i (items_of t s.topic_refcounts))

-- One more, and one less.
abbrev pub raise : Topic → String → List (Topic × ItemRefcounts) → List (Topic × ItemRefcounts)
raise t i m = put t (put i (incr (held i (items_of t m))) (items_of t m)) m

abbrev pub lower : Topic → String → List (Topic × ItemRefcounts) → List (Topic × ItemRefcounts)
lower t i m =
    let items = items_of t m in
    let n = decr (held i items) in
    if n == 0
    then (if is_nil (erase i items) then erase t m else put t (erase i items) m)
    else put t (put i n items) m

-- What the two last cases of the unwinding do to the counts.
abbrev after_post : Topic → List (Topic × ItemRefcounts) → List (Topic × ItemRefcounts)
after_post t m =
    let m1 = put t (items_of t m) m in if is_nil (items_of t m1) then erase t m1 else m1

abbrev after_shem : Topic → String → List (Topic × ItemRefcounts) → List (Topic × ItemRefcounts)
after_shem t i m = after_post t (put t (erase i (items_of t m)) m)

pub items_of-put :
    (t : Topic) (items : ItemRefcounts) (m : List (Topic × ItemRefcounts))
    → items_of t (put t items m) ≡ items
items_of-put t items m = ground (arith, lookup-put t t items m, beq_refl t)

after_post_lem :
    (t : Topic) (items : ItemRefcounts) (m : List (Topic × ItemRefcounts))
    → after_post t (put t items m) ≡ (if is_nil items then erase t m else put t items m)
after_post_lem t items m =
    rw
      (items_of-put t items m, put-put t items items m, items_of-put t items m, erase-put t items m)

after_post_items :
    (t : Topic) (m : List (Topic × ItemRefcounts))
    → after_post t m ≡ (if is_nil (items_of t m) then erase t m else put t (items_of t m) m)
after_post_items t m = rw (items_of-put t (items_of t m) m, erase-put t (items_of t m) m)

after_shem_lem :
    (t : Topic) (i : String) (items : ItemRefcounts) (m : List (Topic × ItemRefcounts))
    → lookup i items ≡ none
    → after_shem t i (put t (put i 1 items) m) ≡ (if is_nil items then erase t m else put t items m)
after_shem_lem t i items m h =
    rw
      (
        items_of-put t (put i 1 items) m,
        erase-put i 1 items,
        erase_absent i items h,
        put-put t items (put i 1 items) m,
      )
      (after_post_lem t items m)

module _ {X : Type 0} (t : Topic) (i : String) (a : Answers) (s : Engine X) where
  -- Each case of the unwinding.
  unwind_shem :
      let u = unwind shem_buffer t i a s in
      (u.topic_refcounts ≡ after_shem t i s.topic_refcounts) × (u.buffers ≡ s.buffers)
  unfolding unwind unwind_post close_topic post_close_item wait_ack
  unwind_shem = (ground arith, ground arith)

  unwind_dde_post :
      let u = unwind dde_post t i a s in
      (u.topic_refcounts ≡ after_post t s.topic_refcounts) × (u.buffers ≡ s.buffers)
  unfolding unwind unwind_post close_topic
  unwind_dde_post = (ground arith, ground arith)

  pub unwind_no_ack :
      let u = unwind dde_no_ack t i a s in
      (u.topic_refcounts ≡ erase t s.topic_refcounts) × (u.buffers ≡ s.buffers)
  unfolding unwind close_topic
  unwind_no_ack = (refl, refl)

  pub unwind_done : unwind done t i a s ≡ s
  unfolding unwind
  unwind_done = refl

module _ {X : Type 0} (blank : X) (t : Topic) (i : String) (a : Answers) (s : Engine X) where
  -- `CreateItem` of an item that the topic does not have, on every branch.
  create_item-new :
      lookup i (items_of t s.topic_refcounts) ≡ none
      → lookup (i, t) s.buffers ≡ none
      → let r = create_item blank t i a s in
        let m = put t (put i 1 (items_of t s.topic_refcounts)) s.topic_refcounts in
        ((r.0 ≡ done)
          × (r.1.topic_refcounts ≡ m)
          × (r.1.buffers ≡ insert (i, t) (stream_buffer blank t a) s.buffers))
        ⊎ ((r.0 ≡ shem_buffer) × (r.1.topic_refcounts ≡ m) × (r.1.buffers ≡ s.buffers))
        ⊎ ((r.0 ≡ dde_post) × (r.1.topic_refcounts ≡ s.topic_refcounts) × (r.1.buffers ≡ s.buffers))
  unfolding create_item create_stream_buffer post_item wait_ack
  create_item-new h g = elim (Bool-cases (post_item i t a.to_link s).0) [
    | inl l ↦ elim (Bool-cases a.made) [
      | inl d ↦ inl (ground (arith, l, d, g), ground (arith, l, d, g), ground (arith, l, d, g))
      | inr d ↦
          inr (inl (ground (arith, l, d, g), ground (arith, l, d, g), ground (arith, l, d, g)))
    ]
    | inr l ↦ inr (inr (ground (arith, l), ground (arith, l), ground (arith, l)))
  ]

  -- `CreateItem` and the unwinding.
  pub create_item-unwind :
      let items = items_of t s.topic_refcounts in
      let r = create_item blank t i a s in
      let u = unwind r.0 t i a r.1 in
      lookup i items ≡ none
      → lookup (i, t) s.buffers ≡ none
      → ((r.0 ≡ done)
          × (u.topic_refcounts ≡ put t (put i 1 items) s.topic_refcounts)
          × (u.buffers ≡ insert (i, t) (stream_buffer blank t a) s.buffers))
        ⊎ ((r.0 ≢ done)
            × (u.topic_refcounts ≡ (
                if is_nil items then erase t s.topic_refcounts else put t items s.topic_refcounts))
            × (u.buffers ≡ s.buffers))
  create_item-unwind h g =
      let r = create_item blank t i a s in
      let items = items_of t s.topic_refcounts in
      let m = s.topic_refcounts in
      elim (create_item-new h g) [
        | inl (e, f, k) ↦
            let z = unwind_done t i a r.1 in
            inl (rw e (refl, ap (λ v. v.topic_refcounts) z ∙ f, ap (λ v. v.buffers) z ∙ k))
        | inr (inl (e, f, k)) ↦
            let (p, q) = unwind_shem t i a r.1 in
            inr (rw e ((λ d. cc), p ∙ ap (after_shem t i) f ∙ after_shem_lem t i items m h, q ∙ k))
        | inr (inr (e, f, k)) ↦
            let (p, q) = unwind_dde_post t i a r.1 in
            inr (rw e ((λ d. cc), p ∙ ap (after_post t) f ∙ after_post_items t m, q ∙ k))
      ]
