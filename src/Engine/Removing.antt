-- ===== src/Engine/Removing.antt =====
-- `RemoveStream` (src/service/engine.cpp) on every branch.
use Prim.Native.String.{String}
use tosdata_bridge.Prelude.{
  ℕ, ◌≡◌, refl, sym, ap, ap₂, subst, ◌∙◌, Bool, true, false, Option, none, some, List, is_nil,
  arith, ◌==◌, if◌then◌else◌, Option-cases, Bool-cases, inl, inr,
}
use tosdata_bridge.Prelude.Dict.{lookup, set_at, erase, is_some, Every-lookup, beq_refl}
use tosdata_bridge.Prelude.Table.{
  pair_eq, put, lookup-put, put-put, put_present, erase-put, erase_absent, is_nil-lookup,
}
use tosdata_bridge.Topics.Enum.{Topic, null_topic}
use tosdata_bridge.Topics.Map.{topic_eq, text_eq}
use tosdata_bridge.Engine.State.{Engine, ItemRefcounts}
use tosdata_bridge.Engine.Streams.{
  StreamStatus, done, bad_topic, no_topic, no_item, Answers, items_of, decr, close_item,
  close_topic, destroy_buffer, post_close_item, wait_ack, drop_stream, remove_stream,
}
use tosdata_bridge.Engine.Counts.{held, IsOpen, IsTracked, lower, items_of-put}

-- The errors that say that there is no such stream.
abbrev pub is_missing : StreamStatus → Bool
is_missing bad_topic = true
is_missing no_topic = true
is_missing no_item = true
is_missing _ = false

pub remove_stream-null :
    {X : Type 0} (t : Topic) (i : String) (a : Answers) (s : Engine X)
    → topic_eq.beq t null_topic ≡ true
    → remove_stream t i a s ≡ (bad_topic, s)
unfolding remove_stream
remove_stream-null t i a s x = rw x

module _ {X : Type 0} (t : Topic) (i : String) (a : Answers) {s : Engine X} (v : IsTracked s) where
  -- The stream is held once less, and has no buffer when it is not held any more; a stream that is
  -- not held leaves all as it was, with the error that says which part is missing.
  abbrev pub RemovedFrom : Option ℕ → StreamStatus → Engine X → Type 0
  RemovedFrom none err u =
      (u ≡ s) × (err ≡ (if is_some (lookup t s.topic_refcounts) then no_item else no_topic))
  RemovedFrom (some n) err u =
      (is_missing err ≡ false)
      × (u.topic_refcounts ≡ lower t i s.topic_refcounts)
      × (u.buffers ≡ (if decr n == 0 then erase (i, t) s.buffers else s.buffers))

  abbrev pub Removed : StreamStatus → Engine X → Type 0
  Removed = RemovedFrom (lookup i (items_of t s.topic_refcounts))

  close_item_lem :
      (u : Engine X)
      → let r = close_item t i a u in
        (is_missing r.0 ≡ false)
        × (r.1.topic_refcounts ≡ u.topic_refcounts)
        × (r.1.buffers ≡ erase (i, t) u.buffers)
  unfolding close_item destroy_buffer post_close_item wait_ack
  close_item_lem u = (ground arith, ground arith, ground (arith, erase_absent (i, t) u.buffers))

  module _ (items : ItemRefcounts) (n : ℕ) (h : lookup t s.topic_refcounts ≡ some items)
      (g : lookup i items ≡ some n) where
    itself : items_of t s.topic_refcounts ≡ items
    itself = ground (arith, h)

    times : held i (items_of t s.topic_refcounts) ≡ n
    times = ground (arith, h, g)

    abbrev counted : List (Topic × ItemRefcounts)
    counted = set_at t (set_at i (decr n) items) s.topic_refcounts

    counted-put : counted ≡ put t (put i (decr n) items) s.topic_refcounts
    counted-put =
        ap (λ js. set_at t js s.topic_refcounts) (sym (put_present i (decr n) n items g))
        ∙ sym (put_present t (put i (decr n) items) items s.topic_refcounts h)

    abbrev with_count : Engine X
    with_count = record s { topic_refcounts = counted }

    lower-more :
        (decr n == 0) ≡ false
        → lower t i s.topic_refcounts ≡ put t (put i (decr n) items) s.topic_refcounts
    lower-more d = rw (times, d) (ap (λ js. put t (put i (decr n) js) s.topic_refcounts) itself)

    lower-last :
        (decr n == 0) ≡ true
        → lower t i s.topic_refcounts ≡ (
            if is_nil (erase i items)
            then erase t s.topic_refcounts
            else put t (erase i items) s.topic_refcounts)
    lower-last d =
        rw (times, d)
          (ap
            (λ js.
              if is_nil (erase i js)
              then erase t s.topic_refcounts
              else put t (erase i js) s.topic_refcounts)
            itself)

    -- It is held more than once.
    remove_one :
        (decr n == 0) ≡ false
        → topic_eq.beq t null_topic ≡ false
        → let r = remove_stream t i a s in RemovedFrom (some n) r.0 r.1
    unfolding remove_stream drop_stream
    remove_one d x =
        let o : is_nil (items_of t counted) ≡ false =
          ap (λ m. is_nil (items_of t m)) counted-put
          ∙ ap is_nil (items_of-put t (put i (decr n) items) s.topic_refcounts)
          ∙ is_nil-lookup i (decr n) (put i (decr n) items)
              (ground (arith, lookup-put i i (decr n) items, beq_refl i)) in
        let e : remove_stream t i a s ≡ (done, with_count) = ground (arith, h, g, d, x, o) in
        subst (λ r. RemovedFrom (some n) r.0 r.1) (sym e)
          (refl, counted-put ∙ sym (lower-more d), rw d)

    abbrev closed : StreamStatus × Engine X
    closed = close_item t i a with_count

    abbrev rest : List (Topic × ItemRefcounts)
    rest = set_at t (erase i (set_at i (decr n) items)) closed.1.topic_refcounts

    rest-put : rest ≡ put t (erase i items) s.topic_refcounts
    rest-put =
        let m = s.topic_refcounts in
        let z = put i (decr n) items in
        let y : erase i (set_at i (decr n) items) ≡ erase i items =
          ap (erase i) (sym (put_present i (decr n) n items g)) ∙ erase-put i (decr n) items in
        ap₂ (λ js m'. set_at t js m') y ((close_item_lem with_count).1 ∙ counted-put)
        ∙ sym (
            put_present t (erase i items) z (put t z m)
              (ground (arith, lookup-put t t z m, beq_refl t)))
        ∙ put-put t (erase i items) z m

    -- It is held once.
    remove_last :
        (decr n == 0) ≡ true
        → topic_eq.beq t null_topic ≡ false
        → let r = remove_stream t i a s in RemovedFrom (some n) r.0 r.1
    unfolding remove_stream drop_stream close_topic
    remove_last d x =
        let (c, p, q) = close_item_lem with_count in
        let w : Engine X = record closed.1 { topic_refcounts = rest } in
        let e : remove_stream t i a s
            ≡ (closed.0, if is_nil (items_of t rest) then close_topic t w else w) =
          ground (arith, h, g, d, x) in
        let o : is_nil (items_of t rest) ≡ is_nil (erase i items) =
          ap (λ m. is_nil (items_of t m)) rest-put
          ∙ ap is_nil (items_of-put t (erase i items) s.topic_refcounts) in
        let l = lower-last d in
        let k = erase-put t (erase i items) s.topic_refcounts in
        subst (λ r. RemovedFrom (some n) r.0 r.1) (sym e)
          (elim (Bool-cases (is_nil (erase i items))) [
            | inl y ↦
                rw (o, y)
                  (
                    c,
                    ap (erase t) rest-put ∙ k ∙ sym (l ∙ ground (arith, y)),
                    q ∙ ground (arith, d),
                  )
            | inr y ↦ rw (o, y) (c, rest-put ∙ sym (l ∙ ground (arith, y)), q ∙ ground (arith, d))
          ])

  -- It is not held.
  remove_missing :
      lookup i (items_of t s.topic_refcounts) ≡ none
      → topic_eq.beq t null_topic ≡ false
      → let r = remove_stream t i a s in RemovedFrom none r.0 r.1
  unfolding remove_stream drop_stream
  remove_missing g x = elim (Option-cases (lookup t s.topic_refcounts)) [
    | inl h ↦
        let e : remove_stream t i a s ≡ (no_topic, s) = ground (arith, h, x) in
        subst (λ r. RemovedFrom none r.0 r.1) (sym e) (refl, ground (arith, h))
    | inr (items, h) ↦
        let o = (Every-lookup IsOpen t items s.topic_refcounts v.opened h).1 in
        let e : remove_stream t i a s ≡ (no_item, s) = ground (arith, g, h, x, o) in
        subst (λ r. RemovedFrom none r.0 r.1) (sym e) (refl, ground (arith, h))
  ]

  -- `RemoveStream` on every branch but that of the null topic.
  pub remove_stream-Removed :
      topic_eq.beq t null_topic ≡ false → let r = remove_stream t i a s in Removed r.0 r.1
  remove_stream-Removed x =
      let r = remove_stream t i a s in
      let P = λ (o : Option ℕ). RemovedFrom o r.0 r.1 in
      elim (Option-cases (lookup i (items_of t s.topic_refcounts))) [
        | inl g ↦ subst P (sym g) (remove_missing g x)
        | inr (n, e) ↦ elim (Option-cases (lookup t s.topic_refcounts)) [
          | inl h ↦ absurd (ground (arith, h, e))
          | inr (items, h) ↦
              let g : lookup i items ≡ some n = ground (arith, h, e) in
              subst P (sym e) (elim (Bool-cases (decr n == 0)) [
                | inl d ↦ remove_last items n h g d x
                | inr d ↦ remove_one items n h g d x
              ])
        ]
      ]
