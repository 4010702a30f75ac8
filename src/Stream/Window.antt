-- ===== src/Stream/Window.antt =====
-- What a stream holds: the elements that have come in, newest first, within the bound. Pushes and
-- changes of the bound are followed as operations on that list.
use mathlib.Core.List.{reverse-cons, append_assoc}
use tosdata_bridge.Prelude.{
  ℕ, zero, suc, ◌+◌, ◌≤◌, ◌≡◌, refl, sym, ap, ◌∙◌, Bool, List, [], ◌∷◌, ◌++◌, map, reverse, arith,
  min, take, pop_back, resize, take-pop_back, take-take, take-resize, take_all, length-take, ltb,
  if◌then◌else◌,
}
use tosdata_bridge.Stream.State.{Stream, clamp_bound, new_stream, push, set_bound_size}
use tosdata_bridge.Stream.Invariant.{IsValid, push-IsValid}

module _ {A : Type 0} where
  take-append-take :
      (m n : ℕ) (xs ys : List A) → m ≤ n → take m (xs ++ take n ys) ≡ take m (xs ++ ys)
  take-append-take m n [] ys h = let e : min m n ≡ m = omega arith in take-take m n ys ∙ rw e
  take-append-take zero n (x ∷ xs) ys h = refl
  take-append-take (suc m) n (x ∷ xs) ys h = ap (◌∷◌ x) (take-append-take m n xs ys (omega arith))

  abbrev pub recent : Stream A → List A
  recent s = take s.qcount s.deque

  pub recent-new_stream : (blank : A) (sz : ℕ) → recent (new_stream blank sz) ≡ []
  unfolding new_stream
  recent-new_stream blank sz = refl

  -- A push keeps as many of the newest elements as the bound allows.
  pub recent-push :
      (got : Bool) (x : A) {s : Stream A}
      → IsValid s
      → recent (push got x s) ≡ take s.qbound (x ∷ recent s)
  unfolding push
  recent-push got x {s} v =
      let k = min (suc s.qcount) s.qbound in
      let e : (if ltb s.qcount s.qbound then s.qcount + 1 else s.qcount) ≡ k = ground arith in
      let e' : min s.qbound (suc s.qcount) ≡ k = omega arith in
      ap (λ n. take n (pop_back (x ∷ s.deque))) e
      ∙ take-pop_back k x s.deque (omega arith)
      ∙ ap (λ n. take n (x ∷ s.deque)) (sym e')
      ∙ sym (take-take s.qbound (suc s.qcount) (x ∷ s.deque))

  -- `bound_size` keeps the newest elements, as many as the clamped bound has room for.
  recent-set_bound_size :
      (blank : A) (sz : ℕ) {s : Stream A}
      → IsValid s
      → recent (set_bound_size blank sz s).1 ≡ take (clamp_bound sz) (recent s)
  unfolding set_bound_size
  recent-set_bound_size blank sz {s} v =
      let n = clamp_bound sz in
      let e : (if ltb n s.qcount then n else s.qcount) ≡ min n s.qcount = ground arith in
      ap (λ k. take k (resize n blank s.deque)) e
      ∙ take-resize n (min n s.qcount) blank s.deque (omega arith) (omega arith)
      ∙ sym (take-take n s.qcount s.deque)

  -- Several pushes, oldest first, each with what its `try_lock` answered.
  unfoldable pub push_all : List (Bool × A) → Stream A → Stream A
  push_all [] s = s
  push_all ((got, x) ∷ xs) s = push_all xs (push got x s)

  abbrev pub values : List (Bool × A) → List A
  values = map λ p. p.1

  pub push_all-IsValid : (xs : List (Bool × A)) {s : Stream A} → IsValid s → IsValid (push_all xs s)
  unfolding push_all
  push_all-IsValid [] v = v
  push_all-IsValid ((got, x) ∷ xs) v = push_all-IsValid xs (push-IsValid got x v)

  pub qbound-push : (got : Bool) (x : A) (s : Stream A) → (push got x s).qbound ≡ s.qbound
  unfolding push
  qbound-push got x s = refl

  pub qbound-push_all : (xs : List (Bool × A)) (s : Stream A) → (push_all xs s).qbound ≡ s.qbound
  unfolding push_all
  qbound-push_all [] s = refl
  qbound-push_all ((got, x) ∷ xs) s = qbound-push_all xs (push got x s) ∙ qbound-push got x s

  -- After any pushes the stream holds the newest of all that came in, up to its bound.
  pub recent-push_all :
      (xs : List (Bool × A)) {s : Stream A}
      → IsValid s
      → recent (push_all xs s) ≡ take s.qbound (reverse (values xs) ++ recent s)
  unfolding push_all
  recent-push_all [] {s} v =
      sym (take_all s.qbound (recent s) (omega (arith, length-take s.qcount s.deque)))
  recent-push_all ((got, x) ∷ xs) {s} v =
      recent-push_all xs (push-IsValid got x v)
      ∙ rw (qbound-push got x s, recent-push got x v, reverse-cons x (values xs))
          (take-append-take s.qbound s.qbound (reverse (values xs)) (x ∷ recent s) (omega arith)
            ∙ ap (take s.qbound) (sym (append_assoc (reverse (values xs)) (x ∷ []) (recent s))))
