-- ===== src/Engine/Adding.antt =====
-- `AddStream` (src/service/engine.cpp) on every branch.
use Prim.Native.String.{String}
use tosdata_bridge.Prelude.{
  ℕ, ◌≡◌, ◌≢◌, ◌⊎◌, refl, sym, ap, ap₂, subst, ◌∙◌, true, false, none, some, [], is_nil, arith,
  if◌then◌else◌, Option-cases, Bool-cases, inl, inr,
}
use tosdata_bridge.Prelude.Dict.{lookup, set_at, erase, insert, Every-lookup}
use tosdata_bridge.Prelude.Table.{
  pair_eq, put, put-put, put_self, put_present, erase-put, erase_absent,
}
use tosdata_bridge.Topics.Enum.{Topic, null_topic}
use tosdata_bridge.Topics.Map.{topic_eq, text_eq, text_of}
use tosdata_bridge.Engine.State.{Engine, ItemRefcounts}
use tosdata_bridge.Engine.Streams.{
  StreamStatus, done, bad_topic, Answers, stream_buffer, items_of, incr, wait_ack, set_signal,
  create_item, create_topic, open_stream, unwind, add_stream,
}
use tosdata_bridge.Engine.Counts.{
  held, IsOpen, IsTracked, raise, items_of-put, unwind_no_ack, unwind_done, create_item-unwind,
}

pub add_stream-null :
    {X : Type 0} (blank : X) (t : Topic) (i : String) (a : Answers) (s : Engine X)
    → topic_eq.beq t null_topic ≡ true
    → add_stream blank t i a s ≡ (bad_topic, s)
unfolding add_stream
add_stream-null blank t i a s x = rw x

module _ {X : Type 0} (blank : X) (t : Topic) (i : String) (a : Answers) {s : Engine X}
    (v : IsTracked s) where
  -- The stream is counted once more and has a buffer, or everything is as it was.
  abbrev pub Added : StreamStatus → Engine X → Type 0
  Added err u =
      ((err ≡ done)
        × (u.topic_refcounts ≡ raise t i s.topic_refcounts)
        × (u.buffers ≡ insert (i, t) (stream_buffer blank t a) s.buffers))
      ⊎ ((err ≢ done) × (u.topic_refcounts ≡ s.topic_refcounts) × (u.buffers ≡ s.buffers))

  no_buffer : lookup i (items_of t s.topic_refcounts) ≡ none → lookup (i, t) s.buffers ≡ none
  no_buffer h = ground (arith, h, v.buffered t i)

  raise-first :
      lookup i (items_of t s.topic_refcounts) ≡ none
      → raise t i s.topic_refcounts
        ≡ put t (put i 1 (items_of t s.topic_refcounts)) s.topic_refcounts
  raise-first h =
      let n : held i (items_of t s.topic_refcounts) ≡ 0 = ground (arith, h) in
      ap (λ k. put t (put i (incr k) (items_of t s.topic_refcounts)) s.topic_refcounts) n

  kept-items :
      (items : ItemRefcounts)
      → items_of t s.topic_refcounts ≡ items
      → is_nil items ≡ false
      → lookup t s.topic_refcounts ≡ some items
      → (if is_nil (items_of t s.topic_refcounts)
          then erase t s.topic_refcounts
          else put t (items_of t s.topic_refcounts) s.topic_refcounts)
        ≡ s.topic_refcounts
  kept-items items q o h = rw (q, o) (put_self t items s.topic_refcounts h)

  create_topic-Added :
      lookup t s.topic_refcounts ≡ none
      → let r = create_topic blank t i a s in Added r.0 (unwind r.0 t i a r.1)
  unfolding create_topic wait_ack
  create_topic-Added h =
      let m = s.topic_refcounts in
      let w = (wait_ack (text_of t) a.to_initiate (set_signal (text_of t) s)).1 in
      let z = record w { topic_refcounts = put t [] w.topic_refcounts } in
      let q : items_of t z.topic_refcounts ≡ [] = items_of-put t [] m in
      let q0 : items_of t m ≡ [] = ground (arith, h) in
      let c : lookup i (items_of t m) ≡ none = ground (arith, h) in
      let d : lookup i (items_of t z.topic_refcounts) ≡ none = ap (lookup i) q in
      elim (Bool-cases (wait_ack (text_of t) a.to_initiate (set_signal (text_of t) s)).0) [
        | inl e ↦ rw e (elim (create_item-unwind blank t i a z d (no_buffer c)) [
          | inl (e', f, k) ↦ inl (
            e',
            f
                ∙ ap (λ js. put t (put i 1 js) (put t [] m)) q
                ∙ put-put t (put i 1 []) [] m
                ∙ sym (raise-first c ∙ ap (λ js. put t (put i 1 js) m) q0),
            k,
          )
          | inr (e', f, k) ↦ inr (
            e',
            f
                ∙ ap (λ js. if is_nil js then erase t (put t [] m) else put t js (put t [] m)) q
                ∙ erase-put t [] m
                ∙ erase_absent t m h,
            k,
          )
        ])
        | inr e ↦
            let (f, k) = unwind_no_ack t i a w in inr (rw e ((λ d. cc), f ∙ erase_absent t m h, k))
      ]

  create_item-Added :
      (items : ItemRefcounts)
      → lookup t s.topic_refcounts ≡ some items
      → lookup i items ≡ none
      → let r = create_item blank t i a s in Added r.0 (unwind r.0 t i a r.1)
  create_item-Added items h g =
      let m = s.topic_refcounts in
      let q : items_of t m ≡ items = ground (arith, h) in
      let c : lookup i (items_of t m) ≡ none = ground (arith, q, g) in
      let o : is_nil items ≡ false = (Every-lookup IsOpen t items m v.opened h).1 in
      elim (create_item-unwind blank t i a s c (no_buffer c)) [
        | inl (e, f, k) ↦ inl (e, f ∙ sym (raise-first c), k)
        | inr (e, f, k) ↦ inr (e, f ∙ kept-items items q o h, k)
      ]

  increment-Added :
      (items : ItemRefcounts) (n : ℕ)
      → lookup t s.topic_refcounts ≡ some items
      → lookup i items ≡ some n
      → Added done
          (record s { topic_refcounts = set_at t (set_at i (incr n) items) s.topic_refcounts })
  increment-Added items n h g =
      let m = s.topic_refcounts in
      let q : items_of t m ≡ items = ground (arith, h) in
      let r : held i (items_of t m) ≡ n = ground (arith, h, g) in
      inl (
        refl,
        sym (
            ap₂ (λ k js. put t (put i (incr k) js) m) r q
            ∙ put_present t (put i (incr n) items) items m h
            ∙ ap (λ js. set_at t js m) (put_present i (incr n) n items g)),
        ground (arith, v.buffered t i, h, g),
      )

  open_stream-Added : let r = open_stream blank t i a s in Added r.0 (unwind r.0 t i a r.1)
  unfolding open_stream
  open_stream-Added =
      let P = λ (r : StreamStatus × Engine X). Added r.0 (unwind r.0 t i a r.1) in
      elim (Option-cases (lookup t s.topic_refcounts)) [
        | inl h ↦
            let e : open_stream blank t i a s ≡ create_topic blank t i a s = ground (arith, h) in
            subst P (sym e) (create_topic-Added h)
        | inr (items, h) ↦ elim (Option-cases (lookup i items)) [
          | inl g ↦
              let e : open_stream blank t i a s ≡ create_item blank t i a s =
                ground (arith, h, g) in
              subst P (sym e) (create_item-Added items h g)
          | inr (n, g) ↦
              let m1 = set_at t (set_at i (incr n) items) s.topic_refcounts in
              let u : Engine X = record s { topic_refcounts = m1 } in
              let e : open_stream blank t i a s ≡ (done, u) = ground (arith, h, g) in
              subst P (sym e) (
                subst (λ z. Added done z) (sym (unwind_done t i a u)) (increment-Added items n h g))
        ]
      ]

  -- `AddStream` on every branch but that of the null topic.
  pub add_stream-Added :
      topic_eq.beq t null_topic ≡ false → let r = add_stream blank t i a s in Added r.0 r.1
  unfolding add_stream
  add_stream-Added x = rw x open_stream-Added
