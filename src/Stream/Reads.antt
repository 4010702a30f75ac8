-- ===== src/Stream/Reads.antt =====
-- What the reads of a stream (src/data_stream.tpp) do to its state, and what they return.
use tosdata_bridge.Prelude.{
  ℕ, ◌+◌, ◌-◌, ◌≤◌, ◌<◌, ◌≡◌, refl, ap, ◌∙◌, ◌⊎◌, inl, inr, Bool, ◌||◌, some, List, [], map, ◌==◌,
  if◌then◌else◌, take_one-drop, arith, length, min, get_elem?, take, length-map, take_one-drop,
  replicate, length-replicate, if_ind,
}
use tosdata_bridge.Prelude.Int.{ℤ, pos, negsuc, ◌+ℤ◌, ◌-ℤ◌, ltb_ℤ, to_int, size_mod}
use tosdata_bridge.Prelude.Action.{Result, ok, err, Result-cases}
use tosdata_bridge.Stream.State.{Stream, StreamError, check_adj}
use tosdata_bridge.Stream.Read.{
  Dest, null, buffer, GenericType, slice, set_mark, copy, copy_strings, get, get_leave_marker,
  vector, secondary_vector,
}
use tosdata_bridge.Stream.Marker.{
  first_index, last_index, sign_count, copy_from_marker, ncopy_from_marker,
}
use tosdata_bridge.Stream.Invariant.{IsValid, set_mark-IsValid}
use tosdata_bridge.Stream.Window.{recent}
use tosdata_bridge.Stream.Index.{
  Names, check_adj-pos, check_adj_iff, at_ok, length-slice, copied, copy-ok,
}

slice-zero : {A : Type 0} (n : ℕ) (d : List A) → slice 0 n d ≡ take n d
slice-zero n d = ground arith

pub sign_count-state :
    {S R : Type 0} (d : Bool) (req : ℤ) (p : Result StreamError (ℕ × R) × S)
    → (sign_count d req p).1 ≡ p.1
unfolding sign_count
sign_count-state d req (ok r, s) = refl
sign_count-state d req (err e, s) = refl

module _ {A : Type 0} where
  -- Nothing has changed, or the marker was put before a position of the stream.
  abbrev pub Moved : Stream A → Stream A → Type 0
  Moved s t = (t ≡ s) ⊎ ((b : ℕ) × (b < s.qbound) × (t ≡ set_mark b s))

  pub Moved-IsValid : {s t : Stream A} → IsValid s → Moved s t → IsValid t
  Moved-IsValid v (inl e) = rw e v
  Moved-IsValid v (inr (b, h, e)) = rw e (set_mark-IsValid b v (omega arith))

  module _ {s : Stream A} (v : IsValid s) (sz : ℕ) where
    pub copy-Moved : (dest : Dest) (end beg : ℤ) → Moved s (copy dest sz end beg s).1
    unfolding copy
    copy-Moved null end beg = inl refl
    copy-Moved buffer end beg = elim (Result-cases (check_adj end beg s.deque s.qbound)) [
      | inl (r, h) ↦
          let q = (check_adj_iff v end beg r.0 r.1).0 (ground (arith, h)) in
          let (a, p, _) = at_ok v r.1 q.1.0 in inr (r.1, q.1.0, ground (arith, h, p))
      | inr (x, h) ↦ inl (ground (arith, h))
    ]

    pub copy_from_marker-Moved :
        (dest : Dest) (beg : ℤ) → Moved s (copy_from_marker dest sz beg s).1
    unfolding copy_from_marker
    copy_from_marker-Moved dest beg =
        let first = first_index beg s.qcount in
        let req_sz = s.mark_count -ℤ first +ℤ pos 1 in
        let out = copy dest sz (to_int s.mark_count) first s in
        if_ind (λ (r : Result StreamError (ℤ × List A) × Stream A). Moved s r.1)
          (ltb_ℤ first (pos 0) || ltb_ℤ req_sz (pos 1)) (ok (pos 0, []), s)
          (sign_count s.mark_is_dirty req_sz out) (inl refl)
          (rw sign_count-state (copy-Moved dest (to_int s.mark_count) first))

    pub ncopy_from_marker-Moved : (dest : Dest) → Moved s (ncopy_from_marker dest sz s).1
    unfolding ncopy_from_marker
    ncopy_from_marker-Moved dest = copy_from_marker-Moved dest (last_index s.mark_count sz)

  module _ {G : Type 0} (g : GenericType A G) {s : Stream A} (v : IsValid s) where
    pub copy_strings-Moved :
        (dest : Dest) (dest_sz str_sz : ℕ) (end beg : ℤ)
        → Moved s (copy_strings g dest dest_sz str_sz end beg s).1
    unfolding copy_strings
    copy_strings-Moved null dest_sz str_sz end beg = inl refl
    copy_strings-Moved buffer dest_sz str_sz end beg =
        elim (Result-cases (check_adj end beg s.deque s.qbound)) [
          | inl (r, h) ↦
              let q = (check_adj_iff v end beg r.0 r.1).0 (ground (arith, h)) in
              inr (r.1, q.1.0, ground (arith, h))
          | inr (x, h) ↦ inl (ground (arith, h))
        ]

    pub vector-Moved : (end beg : ℤ) → Moved s (vector g end beg s).1
    unfolding vector
    vector-Moved end beg = elim (Result-cases (check_adj end beg s.deque s.qbound)) [
      | inl (r, h) ↦
          let q = (check_adj_iff v end beg r.0 r.1).0 (ground (arith, h)) in
          inr (r.1, q.1.0, ground (arith, h))
      | inr (x, h) ↦ inl (ground (arith, h))
    ]

    -- `operator[]` of an index that names a position returns the element there and puts the marker
    -- before it.
    pub get-Names :
        (i : ℤ) (k : ℕ)
        → Names s.qbound i k
        → (a : A) × (get_elem? s.deque k ≡ some a) × (get g i s ≡ (ok (g.of_value a), set_mark k s))
    unfolding get set_mark
    get-Names i k n =
        let (a, p, e) = at_ok v k n.0 in
        let h = (check_adj_iff v i (pos 0) k 0).1 (n, (omega arith, inl refl), omega arith) in
        (a, e, ground (arith, h, p, n))

    -- `get_leave_marker` returns what `operator[]` returns, value or exception, on any index.
    pub get_leave_marker-get : (i : ℤ) → get_leave_marker g i s ≡ (get g i s).0
    unfolding get get_leave_marker set_mark
    get_leave_marker-get i = ground arith

    -- An index that names no position: the exception of `_check_adj`, and nothing has changed.
    pub get-err :
        (i : ℤ) (x : StreamError)
        → check_adj i (pos 0) s.deque s.qbound ≡ err x
        → get g i s ≡ (err x, s)
    unfolding get
    get-err i x h = ground (arith, check_adj-pos v 0 0 (omega arith) (omega (arith, v)))

    pub get-Moved : (i : ℤ) → Moved s (get g i s).1
    get-Moved i = elim (Result-cases (check_adj i (pos 0) s.deque s.qbound)) [
      | inl (r, h) ↦
          let q = (check_adj_iff v i (pos 0) r.0 r.1).0 (ground (arith, h)) in
          let (a, _, e) = get-Names i r.0 q.0 in inr (r.0, q.0.0, ap (λ p. p.1) e)
      | inr (x, h) ↦ inl (ap (λ p. p.1) (get-err i x h))
    ]

    -- `vector` of a range that is accepted: the elements of the range that have come in.
    pub vector-Names :
        (end beg : ℤ) (e b : ℕ)
        → Names s.qbound end e
        → Names s.qbound beg b
        → b ≤ e
        → vector g end beg s
          ≡ (ok (map g.of_value (slice b (min (e + 1) s.qcount) s.deque)), set_mark b s)
    unfolding vector
    vector-Names end beg e b n m h = ground (arith, (check_adj_iff v end beg e b).1 (n, m, h))

    last_position : (n : ℕ) → 1 ≤ n → Names n (negsuc 0) (n - 1)
    unfolding ◌+ℤ◌
    last_position n h = (omega arith, inr (omega arith, ground arith))

    -- `vector` over the whole range is what the stream holds.
    pub vector-recent :
        vector g (negsuc 0) (pos 0) s ≡ (ok (map g.of_value (recent s)), set_mark 0 s)
    vector-recent =
        vector-Names (negsuc 0) (pos 0) (s.qbound - 1) 0 (last_position s.qbound v.bound_low)
          (omega (arith, v), inl refl) (omega arith)
        ∙ ap (λ l. (ok (map g.of_value l), set_mark 0 s))
            (slice-zero (min (s.qbound - 1 + 1) s.qcount) s.deque
              ∙ ap (λ n. take n s.deque) (omega (arith, v)))

  -- Over a range that names the positions from `b` to `e`, `vector` returns as many elements as have
  -- come in at those positions, and `secondary_vector` without a secondary deque as many defaults
  -- as there are positions, at most `_qcount`.
  length-secondary_vector :
      {G D : Type 0} (g : GenericType A G) (blank : D) {s : Stream A}
      → IsValid s
      → (end beg : ℤ) (e b : ℕ) → Names s.qbound end e
      → Names s.qbound beg b
      → b ≤ e
      → (xs : List G) × (ds : List D) × ((vector g end beg s).0 ≡ ok xs)
        × (secondary_vector blank end beg s ≡ ok ds)
        × (length xs ≡ min (e + 1) s.qcount - b)
        × (length ds ≡ min (e + 1 - b) s.qcount)
  unfolding secondary_vector
  length-secondary_vector g blank {s} v end beg e b n m h = (
    map g.of_value (slice b (min (e + 1) s.qcount) s.deque),
    replicate (min (e + 1 - b) s.qcount) blank,
    ap (λ p. p.0) (vector-Names g v end beg e b n m h),
    ground (arith, (check_adj_iff v end beg e b).1 (n, m, h)),
    omega (
      arith,
      length-map g.of_value (slice b (min (e + 1) s.qcount) s.deque),
      length-slice b (min (e + 1) s.qcount) s.deque,
    ),
    length-replicate (min (e + 1 - b) s.qcount) blank,
  )

-- The count that `copy` returns is that of the elements that it writes. For a range of several
-- positions it is at most `sz`; for a single position it is 1, whatever `sz` is.
copy-count :
    {A : Type 0} {s : Stream A}
    → IsValid s
    → (sz : ℕ) (end beg : ℤ) (e b : ℕ) → Names s.qbound end e
    → Names s.qbound beg b
    → b ≤ e
    → sz + b < size_mod
    → (out : List A) × ((copy buffer sz end beg s).0 ≡ ok (length out, out))
      × (length out ≡ (if e == b then 1 else min sz (min (e + 1) s.qcount - b)))
copy-count {s} v sz end beg e b n m h fits =
    let (a, _, f) = at_ok v b m.0 in
    let d = s.deque in
    (
      copied s sz e b,
      ap (λ p. p.0) (copy-ok v sz end beg e b ((check_adj_iff v end beg e b).1 (n, m, h)) fits),
      ground
          (arith, length-slice b (min (sz + b) (min (e + 1) s.qcount)) d, take_one-drop b d a f, v),
    )
