-- ===== src/Stream/Unread.antt =====
-- The marker of a stream: how many elements have come in since the last read, and what the reads
-- from the marker return of them.
use native.Mathlib.Nat.{add-zero}
use tosdata_bridge.Prelude.{
  ℕ, ◌+◌, ◌-◌, ◌≤◌, ◌<◌, ◌≡◌, refl, ap, ◌∙◌, Bool, false, ◌||◌, List, [], ◌∷◌, arith, length, min,
  take, drop, length-take, length-drop, ltb, if◌then◌else◌,
}
use tosdata_bridge.Prelude.Int.{
  pos, ◌+ℤ◌, ◌-ℤ◌, ltb_ℤ, neg, sub_ℕ, size_mod, int_max, to_int, to_int_fits,
}
use tosdata_bridge.Prelude.Action.{ok}
use tosdata_bridge.Stream.State.{Stream, push}
use tosdata_bridge.Stream.Read.{buffer, set_mark, copy}
use tosdata_bridge.Stream.Marker.{
  first_index, last_index, sign_count, copy_from_marker, ncopy_from_marker,
}
use tosdata_bridge.Stream.Invariant.{IsValid, push-IsValid}
use tosdata_bridge.Stream.Index.{check_adj-pos, copied, copy-ok}
use tosdata_bridge.Stream.Window.{push_all, qbound-push}

first_index-pos : (b n : ℕ) → first_index (pos b) n ≡ pos b
unfolding first_index
first_index-pos b n = ground arith

module _ {A : Type 0} where
  -- The `k` newest elements are new to the reader; `d` says that older ones of them are lost.
  pub record IsUnread (k : ℕ) (d : Bool) (s : Stream A) : Type 0 where
    pub marked : s.mark_count ≡ pos k -ℤ pos 1
    pub flagged : s.mark_is_dirty ≡ d
    pub arrived : k ≤ s.qcount

  pub qbound-set_mark : (b : ℕ) (s : Stream A) → (set_mark b s).qbound ≡ s.qbound
  unfolding set_mark
  qbound-set_mark b s = refl

  pub deque-set_mark : (b : ℕ) (s : Stream A) → (set_mark b s).deque ≡ s.deque
  unfolding set_mark
  deque-set_mark b s = refl

  pub set_mark-IsUnread : (b : ℕ) (s : Stream A) → b ≤ s.qcount → IsUnread b false (set_mark b s)
  unfolding set_mark
  set_mark-IsUnread b s h = record { marked = refl; flagged = refl; arrived = h }

  -- A push makes one more element new, or flags the loss of the oldest one.
  pub push-IsUnread :
      (got : Bool) (x : A) {s : Stream A} {k : ℕ} {d : Bool}
      → IsValid s
      → IsUnread k d s
      → IsUnread (min (k + 1) s.qbound) (d || ltb s.qbound (k + 1)) (push got x s)
  unfolding push ◌-ℤ◌ ◌+ℤ◌
  push-IsUnread got x v u = ground arith

  pub push_all-IsUnread :
      (xs : List (Bool × A)) {s : Stream A} {k : ℕ} {d : Bool}
      → IsValid s
      → IsUnread k d s
      → IsUnread (min (k + length xs) s.qbound) (d || ltb s.qbound (k + length xs)) (push_all xs s)
  unfolding push_all
  push_all-IsUnread [] v u = ground arith
  push_all-IsUnread ((got, x) ∷ xs) {s} v u = ground (
    arith,
    push_all-IsUnread xs (push-IsValid got x v) (push-IsUnread got x v u),
    qbound-push got x s,
  )

  module _ {s : Stream A} (v : IsValid s) {k : ℕ} {d : Bool} (u : IsUnread k d s) (sz b : ℕ) where
    -- What a copy of the new elements from `b` on writes.
    copied-unread : b < k → 1 ≤ sz → copied s sz (k - 1) b ≡ take (min sz (k - b)) (drop b s.deque)
    copied-unread h g = ground arith

    length-copied : b < k → 1 ≤ sz → length (copied s sz (k - 1) b) ≡ min sz (k - b)
    length-copied h g =
        rw (copied-unread h g) (
          omega (arith, length-take (min sz (k - b)) (drop b s.deque), length-drop b s.deque, v, u))

    mark-pos : 1 ≤ k → to_int s.mark_count ≡ pos (k - 1)
    unfolding ◌-ℤ◌
    mark-pos h =
        let e : s.mark_count ≡ pos (k - 1) = ground (arith, u) in
        rw e (to_int_fits (pos (k - 1)) (omega (arith, v, u)) (omega arith))

    -- The `copy` that reads from the marker.
    copy_new :
        b < k
        → 1 ≤ sz
        → sz + b < size_mod
        → let n = min sz (k - b) in
          copy buffer sz (to_int s.mark_count) (pos b) s
          ≡ (ok (n, take n (drop b s.deque)), set_mark b s)
    copy_new h g fits =
        rw (mark-pos (omega arith), ← copied-unread h g, ← length-copied h g)
          (copy-ok v sz (pos (k - 1)) (pos b) (k - 1) b
            (check_adj-pos v (k - 1) b (omega arith) (omega (arith, v, u))) fits)

    req_sz-eq : b < k → s.mark_count -ℤ pos b +ℤ pos 1 ≡ pos (k - b)
    unfolding ◌-ℤ◌ ◌+ℤ◌
    req_sz-eq h = rw u.marked (ground arith)

    pub copy_from_marker-ok :
        b < k
        → 1 ≤ sz
        → sz + b < size_mod
        → let n = min sz (k - b) in
          copy_from_marker buffer sz (pos b) s ≡ (
            ok (if d || ltb n (k - b) then neg (pos n) else pos n, take n (drop b s.deque)),
            set_mark b s,
          )
    unfolding copy_from_marker
    copy_from_marker-ok h g fits =
        let t : ltb_ℤ (pos (k - b)) (pos 1) ≡ false = ground arith in
        let f : ltb_ℤ (pos b) (pos 0) ≡ false = ground arith in
        let e = ap (sign_count s.mark_is_dirty (pos (k - b))) (copy_new h g fits) in
        rw (first_index-pos b s.qcount, f, req_sz-eq h, t) (e ∙ simp (add-zero, u.flagged))

    pub copy_from_marker-none : k ≤ b → copy_from_marker buffer sz (pos b) s ≡ (ok (pos 0, []), s)
    unfolding copy_from_marker ◌-ℤ◌ ◌+ℤ◌
    copy_from_marker-none h = rw (first_index-pos b s.qcount) (ground (arith, u))

    last_index-eq : sz ≤ int_max → last_index s.mark_count sz ≡ pos (k - sz)
    unfolding last_index ◌-ℤ◌ ◌+ℤ◌
    last_index-eq h =
        let e : s.mark_count -ℤ pos sz +ℤ pos 1 ≡ sub_ℕ k sz = rw u.marked (ground arith) in
        rw (e, to_int_fits (sub_ℕ k sz) (ground (arith, v, u)) (ground (arith, v, u)))
          (ground arith)

    -- `ncopy_from_marker` starts so that it reads the `sz` oldest of the new elements.
    pub ncopy_from_marker-eq :
        sz ≤ int_max → ncopy_from_marker buffer sz s ≡ copy_from_marker buffer sz (pos (k - sz)) s
    unfolding ncopy_from_marker copy_from_marker
    ncopy_from_marker-eq h = ap (λ i. copy_from_marker buffer sz i s) (last_index-eq h)
