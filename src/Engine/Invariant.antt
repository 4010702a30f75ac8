-- ===== src/Engine/Invariant.antt =====
-- What holds of the engine (src/service/engine.cpp) between its operations.
use Prim.Native.String.{String}
use tosdata_bridge.Prelude.{
  ℕ, ◌+◌, ◌<◌, ◌≡◌, refl, sym, ap, ap₂, subst, ◌∙◌, Bool, true, false, not, ◌&&◌, ◌||◌, Option,
  none, some, List, [], is_nil, arith, ◌==◌, if◌then◌else◌, Option-cases, Bool-cases, inl, inr,
}
use tosdata_bridge.Prelude.Int.{size_mod}
use tosdata_bridge.Prelude.Dict.{
  lookup, insert, erase, is_some, keys, Distinct, Every, Every-lookup, Every-erase, erase-Distinct,
  beq_refl,
}
use tosdata_bridge.Prelude.Table.{
  pair_eq, put, lookup-put, put-Distinct, Every-put, is_nil-lookup, is_some-insert, is_some-erase,
}
use tosdata_bridge.Topics.Enum.{Topic, null_topic}
use tosdata_bridge.Topics.Map.{topic_eq, text_eq}
use tosdata_bridge.Shared.State.{Buffer}
use tosdata_bridge.Engine.State.{Engine, ItemRefcounts}
use tosdata_bridge.Engine.Streams.{
  Answers, stream_buffer, items_of, incr, decr, add_stream, remove_stream,
}
use tosdata_bridge.Engine.Counts.{held, count, IsHeld, IsOpen, IsTracked, raise, lower}
use tosdata_bridge.Engine.Tracking.{lookup-raise, lookup-lower}
use tosdata_bridge.Engine.Adding.{add_stream-Added}
use tosdata_bridge.Engine.Removing.{RemovedFrom, remove_stream-null, remove_stream-Removed}

module _ (t : Topic) (i : String) (m : List (Topic × ItemRefcounts)) (o : Every IsOpen m) where
  items_of-parts : Distinct (keys (items_of t m)) × Every IsHeld (items_of t m)
  items_of-parts = elim (Option-cases (lookup t m)) [
    | inl h ↦
        let e : items_of t m ≡ [] = ground (arith, h) in
        subst (λ js. Distinct (keys js) × Every IsHeld js) (sym e) (tt, tt)
    | inr (items, h) ↦
        let e : items_of t m ≡ items = ground (arith, h) in
        let (d, n, p, x) = Every-lookup IsOpen t items m o h in
        subst (λ js. Distinct (keys js) × Every IsHeld js) (sym e) (d, p)
  ]

  set-opened :
      (n : ℕ)
      → IsHeld i n
      → topic_eq.beq t null_topic ≡ false
      → Every IsOpen (put t (put i n (items_of t m)) m)
  set-opened n h x =
      let (d, p) = items_of-parts in
      Every-put IsOpen t (put i n (items_of t m)) m
        (
          put-Distinct i n (items_of t m) d,
          is_nil-lookup i n (put i n (items_of t m))
              (ground (arith, lookup-put i i n (items_of t m), beq_refl i)),
          Every-put IsHeld i n (items_of t m) h p,
          x,
        )
        o

  unset-opened :
      is_nil (erase i (items_of t m)) ≡ false
      → topic_eq.beq t null_topic ≡ false
      → Every IsOpen (put t (erase i (items_of t m)) m)
  unset-opened h x =
      let (d, p) = items_of-parts in
      Every-put IsOpen t (erase i (items_of t m)) m
        (erase-Distinct i (items_of t m) d, h, Every-erase IsHeld i (items_of t m) p, x) o

  raise-opened :
      held i (items_of t m) + 1 < size_mod
      → topic_eq.beq t null_topic ≡ false
      → Every IsOpen (raise t i m)
  raise-opened h x = set-opened (incr (held i (items_of t m))) (omega (arith, h)) x

  lower-opened : topic_eq.beq t null_topic ≡ false → Every IsOpen (lower t i m)
  lower-opened x = elim (Bool-cases (decr (held i (items_of t m)) == 0)) [
    | inl d ↦ elim (Bool-cases (is_nil (erase i (items_of t m)))) [
      | inl e ↦ rw (d, e) (Every-erase IsOpen t m o)
      | inr e ↦ rw (d, e) (unset-opened e x)
    ]
    | inr d ↦ rw d (set-opened (decr (held i (items_of t m))) (ground (arith, d)) x)
  ]

  lower-Distinct : Distinct (keys m) → Distinct (keys (lower t i m))
  lower-Distinct h = elim (Bool-cases (decr (held i (items_of t m)) == 0)) [
    | inl d ↦ elim (Bool-cases (is_nil (erase i (items_of t m)))) [
      | inl e ↦ rw (d, e) (erase-Distinct t m h)
      | inr e ↦ rw (d, e) (put-Distinct t (erase i (items_of t m)) m h)
    ]
    | inr d ↦ rw d (put-Distinct t (put i (decr (held i (items_of t m))) (items_of t m)) m h)
  ]

raised-some :
    (b p : Bool) (n : ℕ) (o : Option ℕ)
    → p ≡ is_some o
    → (b || p) ≡ is_some (if b then some n else o)
raised-some true p n o h = refl
raised-some false p n o h = h

lowered-some :
    (b z p : Bool) (n : ℕ) (o : Option ℕ)
    → p ≡ is_some o
    → (b ≡ true → is_some o ≡ true)
    → (if z then not b && p else p) ≡ is_some (if b then (if z then none else some n) else o)
lowered-some true true p n o h k = refl
lowered-some true false p n o h k = h ∙ k refl
lowered-some false true p n o h k = h
lowered-some false false p n o h k = h

module _ {X : Type 0} (t : Topic) (i : String) {s : Engine X} (v : IsTracked s) (r : Engine X) where
  count-some : (n : ℕ) → lookup i (items_of t s.topic_refcounts) ≡ some n → count t i s ≡ n
  count-some n h = ground (arith, h)

  kept-itself :
      (n : ℕ)
      → lookup i (items_of t s.topic_refcounts) ≡ some n
      → (u : Topic) (j : String) → (text_eq.beq i j && topic_eq.beq t u) ≡ true
      → is_some (lookup j (items_of u s.topic_refcounts)) ≡ true
  kept-itself n h u j b =
      let p : i ≡ j = (text_eq.beq_iff i j).0 (ground (arith, b)) in
      let q : t ≡ u = (topic_eq.beq_iff t u).0 (ground (arith, b)) in
      ap₂ (λ k w. is_some (lookup k (items_of w s.topic_refcounts))) (sym p) (sym q) ∙ ap is_some h

  lowered-buffers :
      (n : ℕ) (u : Topic) (j : String)
      → is_some (lookup (j, u) (if decr n == 0 then erase (i, t) s.buffers else s.buffers)) ≡ (
          if decr n == 0
          then not (text_eq.beq i j && topic_eq.beq t u) && is_some (lookup (j, u) s.buffers)
          else is_some (lookup (j, u) s.buffers))
  lowered-buffers n u j = elim (Bool-cases (decr n == 0)) [
    | inl d ↦ rw d (is_some-erase (i, t) (j, u) s.buffers)
    | inr d ↦ rw d
  ]

  pub same-IsTracked : r.topic_refcounts ≡ s.topic_refcounts → r.buffers ≡ s.buffers → IsTracked r
  same-IsTracked e f = record {
    topics_distinct = rw e v.topics_distinct;
    opened = rw e v.opened;
    buffered = λ u j. rw (e, f) (v.buffered u j);
  }

  raised-IsTracked :
      (b : Buffer X)
      → r.topic_refcounts ≡ raise t i s.topic_refcounts
      → r.buffers ≡ insert (i, t) b s.buffers
      → count t i s + 1 < size_mod
      → topic_eq.beq t null_topic ≡ false
      → IsTracked r
  raised-IsTracked b e f h x = record {
    topics_distinct = rw e (
        put-Distinct t (put i (incr (count t i s)) (items_of t s.topic_refcounts)) s.topic_refcounts
          v.topics_distinct);
    opened = rw e (raise-opened t i s.topic_refcounts v.opened h x);
    buffered = λ u j.
        rw (e, f)
          (is_some-insert (i, t) (j, u) b s.buffers
            ∙ raised-some (text_eq.beq i j && topic_eq.beq t u) (is_some (lookup (j, u) s.buffers))
                (incr (count t i s)) (lookup j (items_of u s.topic_refcounts)) (v.buffered u j)
            ∙ ap is_some (sym (lookup-raise t i u j s.topic_refcounts)));
  }

  lowered-IsTracked :
      (n : ℕ)
      → lookup i (items_of t s.topic_refcounts) ≡ some n
      → r.topic_refcounts ≡ lower t i s.topic_refcounts
      → r.buffers ≡ (if decr n == 0 then erase (i, t) s.buffers else s.buffers)
      → topic_eq.beq t null_topic ≡ false
      → IsTracked r
  lowered-IsTracked n h e f x = record {
    topics_distinct = rw e (lower-Distinct t i s.topic_refcounts v.opened v.topics_distinct);
    opened = rw e (lower-opened t i s.topic_refcounts v.opened x);
    buffered = λ u j.
        rw (e, f)
          (lowered-buffers n u j
            ∙ lowered-some (text_eq.beq i j && topic_eq.beq t u) (decr n == 0)
                (is_some (lookup (j, u) s.buffers)) (decr n)
                (lookup j (items_of u s.topic_refcounts)) (v.buffered u j) (kept-itself n h u j)
            ∙ ap
                (λ k. is_some (
                  if text_eq.beq i j && topic_eq.beq t u
                  then (if decr k == 0 then none else some (decr k))
                  else lookup j (items_of u s.topic_refcounts)))
                (sym (count-some n h))
            ∙ ap is_some (sym (lookup-lower t i u j s.topic_refcounts)));
  }

module _ {X : Type 0} (t : Topic) (i : String) (a : Answers) {s : Engine X} (v : IsTracked s) where
  pub add_stream-IsTracked :
      (blank : X) → count t i s + 1 < size_mod → IsTracked (add_stream blank t i a s).1
  unfolding add_stream
  add_stream-IsTracked blank h = elim (Bool-cases (topic_eq.beq t null_topic)) [
    | inl x ↦ rw x v
    | inr x ↦
        let r = (add_stream blank t i a s).1 in
        elim (add_stream-Added blank t i a v x) [
          | inl (d, e, f) ↦ raised-IsTracked t i v r (stream_buffer blank t a) e f h x
          | inr (d, e, f) ↦ same-IsTracked t i v r e f
        ]
  ]

  pub remove_stream-IsTracked : IsTracked (remove_stream t i a s).1
  remove_stream-IsTracked = elim (Bool-cases (topic_eq.beq t null_topic)) [
    | inl x ↦ subst (λ z. IsTracked z.1) (sym (remove_stream-null t i a s x)) v
    | inr x ↦
        let r = remove_stream t i a s in
        elim (Option-cases (lookup i (items_of t s.topic_refcounts))) [
          | inl h ↦
              let (e, f) =
                subst (λ o. RemovedFrom t i a v o r.0 r.1) h (remove_stream-Removed t i a v x) in
              subst IsTracked (sym e) v
          | inr (n, h) ↦
              let (c, e, f) =
                subst (λ o. RemovedFrom t i a v o r.0 r.1) h (remove_stream-Removed t i a v x) in
              lowered-IsTracked t i v r.1 n h e f x
        ]
  ]
