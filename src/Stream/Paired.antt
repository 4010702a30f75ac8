-- ===== src/Stream/Paired.antt =====
-- The stream with a secondary deque (include/data_stream.hpp, src/data_stream.tpp) as a stream of
-- pairs of an element and its stamp.
use mathlib.Core.List.{zip}
use tosdata_bridge.Prelude.{
  ℕ, zero, suc, ◌≡◌, refl, ap, ◌∙◌, Bool, List, [], ◌∷◌, some, arith, length, inl, get_elem?,
  get_elem?-some, pop_back, resize, replicate, length-pop_back, length-resize, length-replicate,
}
use tosdata_bridge.Prelude.Int.{ℤ, pos}
use tosdata_bridge.Prelude.Action.{ok}
use tosdata_bridge.Stream.State
use tosdata_bridge.Stream.State.{Stream, StreamError, clamp_bound, incr_internal_counts, check_adj}
use tosdata_bridge.Stream.Read.{GenericType, set_mark}
use tosdata_bridge.Stream.Invariant.{
  IsValid, new_stream-IsValid, push-IsValid, set_bound_size-IsValid,
}
use tosdata_bridge.Stream.Index.{Names, check_adj_iff}
use tosdata_bridge.Stream.Unread.{qbound-set_mark}
use tosdata_bridge.Stream.Reads.{get-Names, get_leave_marker-get}
use tosdata_bridge.Stream.Secondary
use tosdata_bridge.Stream.Secondary.{PairStream}

module _ {A D : Type 0} where
  pub record IsPaired (s : PairStream A D) : Type 0 where
    pub valid : IsValid s.base
    pub full_secondary : length s.deque_secondary ≡ s.base.qbound

  -- The stream of pairs that it stands for.
  abbrev pub paired : PairStream A D → Stream (A × D)
  paired s = record {
    deque = zip s.base.deque s.deque_secondary;
    qbound = s.base.qbound;
    qcount = s.base.qcount;
    mark_count = s.base.mark_count;
    mark_is_dirty = s.base.mark_is_dirty;
    push_has_priority = s.base.push_has_priority;
  }

  zip-pop_back :
      (x : A) (d : D) (xs : List A) (ds : List D)
      → length xs ≡ length ds
      → zip (pop_back (x ∷ xs)) (pop_back (d ∷ ds)) ≡ pop_back ((x, d) ∷ zip xs ds)
  unfolding zip
  zip-pop_back x d [] [] h = refl
  zip-pop_back x d [] (e ∷ ds) h = absurd (omega arith)
  zip-pop_back x d (y ∷ xs) [] h = absurd (omega arith)
  zip-pop_back x d (y ∷ xs) (e ∷ ds) h = ap (◌∷◌ (x, d)) (zip-pop_back y e xs ds (omega arith))

  zip-replicate : (n : ℕ) (x : A) (d : D) → zip (replicate n x) (replicate n d) ≡ replicate n (x, d)
  unfolding zip
  zip-replicate zero x d = refl
  zip-replicate (suc n) x d = ap (◌∷◌ (x, d)) (zip-replicate n x d)

  zip-resize :
      (n : ℕ) (x : A) (d : D) (xs : List A) (ds : List D)
      → length xs ≡ length ds
      → zip (resize n x xs) (resize n d ds) ≡ resize n (x, d) (zip xs ds)
  unfolding zip
  zip-resize zero x d xs ds h = refl
  zip-resize (suc n) x d [] [] h = ap (◌∷◌ (x, d)) (zip-replicate n x d)
  zip-resize (suc n) x d [] (e ∷ ds) h = absurd (omega arith)
  zip-resize (suc n) x d (y ∷ xs) [] h = absurd (omega arith)
  zip-resize (suc n) x d (y ∷ xs) (e ∷ ds) h =
      ap (◌∷◌ (y, e)) (zip-resize n x d xs ds (omega arith))

  pub get_elem?-zip :
      (k : ℕ) (xs : List A) (ds : List D) {a : A} {d : D}
      → get_elem? xs k ≡ some a
      → get_elem? ds k ≡ some d
      → get_elem? (zip xs ds) k ≡ some (a, d)
  unfolding zip
  get_elem?-zip k [] ds h g = cc
  get_elem?-zip k (x ∷ xs) [] h g = cc
  get_elem?-zip zero (x ∷ xs) (e ∷ ds) h g = cc
  get_elem?-zip (suc k) (x ∷ xs) (e ∷ ds) h g = get_elem?-zip k xs ds h g

  length-zip : (xs : List A) (ds : List D) → length xs ≡ length ds → length (zip xs ds) ≡ length xs
  unfolding zip
  length-zip [] ds h = refl
  length-zip (x ∷ xs) [] h = absurd (omega arith)
  length-zip (x ∷ xs) (e ∷ ds) h = ap suc (length-zip xs ds (omega arith))

  -- What it stands for is a valid stream.
  pub paired-IsValid : {s : PairStream A D} → IsPaired s → IsValid (paired s)
  paired-IsValid {s} p =
      let v = p.valid in
      record {
        full = length-zip s.base.deque s.deque_secondary (omega arith) ∙ v.full;
        bound_low = v.bound_low;
        bound_high = v.bound_high;
        counted = v.counted;
        mark_low = v.mark_low;
        mark_high = v.mark_high;
      }

  pub new_stream-IsPaired : (x : A) (d : D) (sz : ℕ) → IsPaired (Secondary.new_stream x d sz)
  unfolding Secondary.new_stream
  new_stream-IsPaired x d sz = record {
    valid = new_stream-IsValid x (clamp_bound sz);
    full_secondary = length-replicate (clamp_bound sz) d ∙ omega arith;
  }

  pub push-IsPaired :
      (got : Bool) (x : A) (d : D) {s : PairStream A D}
      → IsPaired s
      → IsPaired (Secondary.push got x d s)
  unfolding Secondary.push State.push
  push-IsPaired got x d {s} p = record {
    valid = push-IsValid got x p.valid;
    full_secondary = length-pop_back d s.deque_secondary ∙ p.full_secondary;
  }

  -- `_push` is the push of the pair.
  pub push_refines :
      (got : Bool) (x : A) (d : D) {s : PairStream A D}
      → IsPaired s
      → paired (Secondary.push got x d s) ≡ State.push got (x, d) (paired s)
  unfolding Secondary.push State.push
  push_refines got x d {s} p = ground (arith, zip-pop_back x d s.base.deque s.deque_secondary, p)

  pub set_bound_size-IsPaired :
      (x : A) (d : D) (sz : ℕ) {s : PairStream A D}
      → IsPaired s
      → IsPaired (Secondary.set_bound_size x d sz s).1
  unfolding Secondary.set_bound_size State.set_bound_size
  set_bound_size-IsPaired x d sz {s} p = record {
    valid = set_bound_size-IsValid x (clamp_bound sz) p.valid;
    full_secondary = length-resize (clamp_bound sz) d s.deque_secondary ∙ omega arith;
  }

  -- `bound_size` resizes the pairs.
  set_bound_size_refines :
      (x : A) (d : D) (sz : ℕ) {s : PairStream A D}
      → IsPaired s
      → let (n, t) = Secondary.set_bound_size x d sz s in
        (n, paired t) ≡ State.set_bound_size (x, d) sz (paired s)
  unfolding Secondary.set_bound_size State.set_bound_size
  set_bound_size_refines x d sz {s} p =
      let e : clamp_bound (clamp_bound sz) ≡ clamp_bound sz = omega arith in
      rw (e, zip-resize (clamp_bound sz) x d s.base.deque s.deque_secondary (omega (arith, p)))

pub check_adj-length :
    {A B : Type 0} (end beg : ℤ) (n : ℕ) (xs : List A) (ys : List B)
    → length xs ≡ length ys
    → check_adj end beg xs n ≡ check_adj end beg ys n
unfolding check_adj
check_adj-length end beg n xs ys h = rw h

module _ {A G D : Type 0} (g : GenericType A G) {s : PairStream A D} (p : IsPaired s) where
  check_adj-secondary :
      (end beg : ℤ) (e b : ℕ)
      → check_adj end beg s.base.deque s.base.qbound ≡ ok (e, b)
      → check_adj end beg s.deque_secondary s.base.qbound ≡ ok (e, b)
  check_adj-secondary end beg e b h =
      check_adj-length end beg s.base.qbound s.deque_secondary s.base.deque (omega (arith, p)) ∙ h

  -- `both` of an index that names a position is the pair that stands there, and moves the marker
  -- before it; `both_leave_marker` is the same pair.
  pub both-Names :
      (i : ℤ) (k : ℕ)
      → Names s.base.qbound i k
      → (a : A) × (d : D) × (get_elem? (paired s).deque k ≡ some (a, d))
        × (Secondary.both g i s ≡ (ok (g.of_value a, d), record s { base = set_mark k s.base }))
        × (Secondary.both_leave_marker g i s ≡ ok (g.of_value a, d))
  unfolding Secondary.both Secondary.both_leave_marker
  both-Names i k n =
      let (a, e, h) = get-Names g p.valid i k n in
      let (d, f) = get_elem?-some s.deque_secondary k (omega (arith, p)) in
      let c =
        check_adj-secondary i (pos 0) k 0 (
          (check_adj_iff p.valid i (pos 0) k 0).1 (n, (omega (arith, p), inl refl), omega arith)) in
      (
        a,
        d,
        get_elem?-zip k s.base.deque s.deque_secondary e f,
        ground (arith, h, c, f, n, qbound-set_mark k s.base),
        ground (arith, h, c, f, n, get_leave_marker-get g p.valid i),
      )
