-- ===== src/Stream/Delivery.antt =====
-- The contract of the marker reads of src/data_stream.tpp, for a client that reads between pushes:
-- what it gets of what came in, and what the sign of the count tells it.
use tosdata_bridge.Prelude.{
  ℕ, zero, suc, ◌+◌, ◌-◌, ◌*◌, ◌≤◌, ◌<◌, ◌≡◌, refl, sym, ap, ap₂, ◌∙◌, Bool, false, List, [], ◌∷◌,
  ◌++◌, map, reverse, arith, length, min, take, drop, length-map, length-reverse, take-take,
  take-append_left, take-append-take-drop, take_all, ltb, if◌then◌else◌,
}
use tosdata_bridge.Prelude.Int.{ℤ, pos, neg, size_mod, int_max}
use tosdata_bridge.Prelude.Action.{Result, ok, err}
use tosdata_bridge.Stream.State.{Stream, StreamError}
use tosdata_bridge.Stream.Read.{buffer, set_mark}
use tosdata_bridge.Stream.Marker.{copy_from_marker, ncopy_from_marker}
use tosdata_bridge.Stream.Invariant.{IsValid, set_mark-IsValid}
use tosdata_bridge.Stream.Window.{
  recent, push_all, values, push_all-IsValid, qbound-push_all, recent-push_all,
}
use tosdata_bridge.Stream.Unread.{
  IsUnread, set_mark-IsUnread, qbound-set_mark, deque-set_mark, push_all-IsUnread,
  copy_from_marker-ok, copy_from_marker-none, ncopy_from_marker-eq,
}

module _ {A : Type 0} where
  length-values : (xs : List (Bool × A)) → length (reverse (values xs)) ≡ length xs
  length-values xs = length-reverse (values xs) ∙ length-map _ xs

  newest-push_all :
      (xs : List (Bool × A)) {s : Stream A} (n : ℕ)
      → IsValid s
      → n ≤ length xs
      → n ≤ (push_all xs s).qcount
      → take n (push_all xs s).deque ≡ take n (reverse (values xs))
  newest-push_all xs {s} n v h g =
      let t = push_all xs s in
      let w = push_all-IsValid xs v in
      let e : min n t.qcount ≡ n = omega arith in
      let e' : min n s.qbound ≡ n = omega (arith, w.counted, qbound-push_all xs s) in
      ap (λ k. take k t.deque) (sym e)
      ∙ sym (take-take n t.qcount t.deque)
      ∙ ap (take n) (recent-push_all xs v)
      ∙ take-take n s.qbound (reverse (values xs) ++ recent s)
      ∙ ap (λ k. take k (reverse (values xs) ++ recent s)) e'
      ∙ take-append_left n (reverse (values xs)) (recent s) (omega (arith, length-values xs))

  -- Let everything be read, and then elements come in. The next read from the marker returns the
  -- newest of them, newest first, as many as the stream and the array hold; the count is negative
  -- exactly if some of them are not among what it returns.
  pub copy_from_marker-push_all :
      (xs : List (Bool × A)) {s : Stream A} (sz : ℕ)
      → IsValid s
      → IsUnread 0 false s
      → 1 ≤ length xs
      → 1 ≤ sz
      → sz < size_mod
      → let n = min sz (min (length xs) s.qbound) in
        copy_from_marker buffer sz (pos 0) (push_all xs s) ≡ (
          ok (if ltb n (length xs) then neg (pos n) else pos n, take n (reverse (values xs))),
          set_mark 0 (push_all xs s),
        )
  copy_from_marker-push_all xs {s} sz v u h g fits =
      let t = push_all xs s in
      let k = min (length xs) s.qbound in
      let q : IsUnread k (ltb s.qbound (length xs)) t = ground (arith, push_all-IsUnread xs v u) in
      let m : min sz (k - 0) ≡ min sz k = omega arith in
      copy_from_marker-ok (push_all-IsValid xs v) q sz 0 (omega arith) g (omega arith)
      ∙ ap₂ (λ c out. (ok (c, out), set_mark 0 t)) (ground arith)
          (ap (λ i. take i t.deque) m
            ∙ newest-push_all xs (min sz k) v (omega arith) (omega (arith, q.arrived)))

  -- A client's session: batches of pushes, and after each a read from the marker.
  unfoldable pub session :
      ℕ → List (List (Bool × A)) → Stream A → List (Result StreamError (ℤ × List A)) × Stream A
  session sz [] s = ([], s)
  session sz (xs ∷ batches) s =
      let (r, s') = copy_from_marker buffer sz (pos 0) (push_all xs s) in
      let (rs, t) = session sz batches s' in (r ∷ rs, t)

  abbrev pub Fits : ℕ → List (List (Bool × A)) → Type 0
  Fits n [] = Unit
  Fits n (xs ∷ batches) = (length xs ≤ n) × Fits n batches

  poll :
      (xs : List (Bool × A)) {s : Stream A} (sz : ℕ)
      → IsValid s
      → IsUnread 0 false s
      → length xs ≤ sz
      → length xs ≤ s.qbound
      → sz < size_mod
      → (t : Stream A) × (copy_from_marker buffer sz (pos 0) (push_all xs s)
          ≡ (ok (pos (length xs), reverse (values xs)), t))
        × IsValid t
        × IsUnread 0 false t
        × (t.qbound ≡ s.qbound)
  unfolding push_all
  poll [] {s} sz v u h g fits = (s, copy_from_marker-none v u sz 0 (omega arith), v, u, refl)
  poll (x ∷ xs) {s} sz v u h g fits =
      let t = push_all (x ∷ xs) s in
      let read_of : ℕ → Result StreamError (ℤ × List A) × Stream A = λ i. (
        ok (
          if ltb i (length (x ∷ xs)) then neg (pos i) else pos i,
          take i (reverse (values (x ∷ xs))),
        ),
        set_mark 0 t,
      ) in
      let n : min sz (min (length (x ∷ xs)) s.qbound) ≡ length (x ∷ xs) = omega arith in
      (
        set_mark 0 t,
        copy_from_marker-push_all (x ∷ xs) sz v u (omega arith) (omega arith) fits
            ∙ ap read_of n
            ∙ ap₂ (λ c out. (ok (c, out), set_mark 0 t)) (ground arith)
                (take_all (length (x ∷ xs)) (reverse (values (x ∷ xs)))
                  (omega (arith, length-values (x ∷ xs)))),
        set_mark-IsValid 0 (push_all-IsValid (x ∷ xs) v) (omega arith),
        set_mark-IsUnread 0 t (omega arith),
        qbound-set_mark 0 t ∙ qbound-push_all (x ∷ xs) s,
      )

  -- If no batch is larger than the stream or the array, the session delivers each batch whole, in
  -- the read that follows it: nothing is lost, nothing comes twice, and no count is negative.
  pub session-lossless :
      (sz : ℕ) (batches : List (List (Bool × A))) {s : Stream A}
      → IsValid s
      → IsUnread 0 false s
      → sz < size_mod
      → Fits (min sz s.qbound) batches
      → (session sz batches s).0 ≡ map (λ xs. ok (pos (length xs), reverse (values xs))) batches
  unfolding session
  session-lossless sz [] v u fits h = refl
  session-lossless sz (xs ∷ batches) {s} v u fits h =
      let (t, e, w, q, b) = poll xs sz v u (omega arith) (omega arith) fits in
      rw e (
        ap (◌∷◌ (ok (pos (length xs), reverse (values xs))))
          (session-lossless sz batches w q fits (rw b h.1)))

-- What a read gave goes behind what the later reads give: newer elements stand before older ones.
unfoldable pub collect :
    {A : Type 0}
    → (Stream A → List A × Stream A)
    → Result StreamError (ℤ × List A) × Stream A
    → List A × Stream A
collect later (ok (_, out), s) = let (rest, t) = later s in (rest ++ out, t)
collect later (err _, s) = later s

-- `ncopy_from_marker` again and again, until the rounds are over.
unfoldable pub drain : {A : Type 0} → ℕ → ℕ → Stream A → List A × Stream A
unfolding collect
drain zero sz s = ([], s)
drain (suc rounds) sz s = collect (drain rounds sz) (ncopy_from_marker buffer sz s)

module _ {A : Type 0} where
  set_mark_self : {s : Stream A} → IsUnread 0 false s → s ≡ set_mark 0 s
  unfolding set_mark
  set_mark_self u = ground arith

  -- With `k` new elements, of which none is lost, `ncopy_from_marker` returns the `sz` oldest of
  -- them with a count that is not negative, and the others are still new.
  ncopy_from_marker-oldest :
      (k sz : ℕ) {s : Stream A}
      → IsValid s
      → IsUnread k false s
      → 1 ≤ sz
      → sz ≤ int_max
      → let t = set_mark (k - sz) s in
        (ncopy_from_marker buffer sz s
          ≡ (ok (pos (min sz k), take (min sz k) (drop (k - sz) s.deque)), t))
        × IsValid t
        × IsUnread (k - sz) false t
  ncopy_from_marker-oldest zero sz {s} v u g fits =
      let e : 0 - sz ≡ 0 = omega arith in
      let e' : min sz 0 ≡ 0 = omega arith in
      rw (e, e')
        (
          ncopy_from_marker-eq v u sz 0 fits
              ∙ ap (λ i. copy_from_marker buffer sz (pos i) s) e
              ∙ copy_from_marker-none v u sz 0 (omega arith)
              ∙ ap (λ t. (ok (pos 0, []), t)) (set_mark_self u),
          set_mark-IsValid 0 v (omega arith),
          set_mark-IsUnread 0 s (omega arith),
        )
  ncopy_from_marker-oldest (suc k) sz {s} v u g fits =
      let b = suc k - sz in
      let e : min sz (suc k - b) ≡ min sz (suc k) = omega arith in
      (
        ncopy_from_marker-eq v u sz b fits
            ∙ copy_from_marker-ok v u sz b (omega arith) g (omega arith)
            ∙ ap₂ (λ c out. (ok (c, out), set_mark b s)) (ground arith)
                (ap (λ i. take i (drop b s.deque)) e),
        set_mark-IsValid b v (omega arith),
        set_mark-IsUnread b s (omega arith),
      )

  pub drain-all :
      (rounds k sz : ℕ) {s : Stream A}
      → IsValid s
      → IsUnread k false s
      → 1 ≤ sz
      → sz ≤ int_max
      → k ≤ rounds * sz
      → ((drain rounds sz s).0 ≡ take k s.deque) × IsUnread 0 false (drain rounds sz s).1
  unfolding drain
  drain-all zero k sz {s} v u g fits h =
      let e : 0 ≡ k = omega arith in (ap (λ i. take i s.deque) e, ground (arith, u))
  drain-all (suc rounds) k sz {s} v u g fits h =
      let (e, w, q) = ncopy_from_marker-oldest k sz v u g fits in
      let (f, r) = drain-all rounds (k - sz) sz w q g fits (omega arith) in
      let total : (k - sz) + min sz k ≡ k = omega arith in
      rw e (
        ap (λ l. l ++ take (min sz k) (drop (k - sz) s.deque))
              (f ∙ ap (take (k - sz)) (deque-set_mark (k - sz) s))
            ∙ take-append-take-drop (k - sz) (min sz k) s.deque
            ∙ ap (λ i. take i s.deque) total,
        r,
      )
