-- ===== src/Stream/Index.antt =====
-- `_check_adj` on a valid stream, and what `copy` returns for the range that it gives.
use tosdata_bridge.Prelude.{
  ℕ, ◌+◌, ◌-◌, ◌≤◌, ◌<◌, ◌≡◌, refl, ◌⊎◌, inl, ◌↔◌, List, arith, length, min, some, get_elem?,
  get_elem?-some, take, drop, length-take, length-drop, take_one-drop, ◌==◌, if◌then◌else◌,
}
use tosdata_bridge.Prelude.Int.{ℤ, pos, ◌+ℤ◌, ◌<ℤ◌, size_mod, to_int_fits, to_size-pos}
use tosdata_bridge.Prelude.Action.{ok, err}
use tosdata_bridge.Stream.State.{Stream, StreamError, adjust, check_range, check_adj, at}
use tosdata_bridge.Stream.Read.{buffer, slice, copy_to_ptr, set_mark, copy}
use tosdata_bridge.Stream.Invariant.{IsValid}

-- Index `i` names position `k` of `n`: from the front, or, if negative, from the back.
abbrev pub Names : ℕ → ℤ → ℕ → Type 0
Names n i k = (k < n) × ((i ≡ pos k) ⊎ ((i <ℤ pos 0) × (i +ℤ pos n ≡ pos k)))

adjust-Names : (n : ℕ) (i : ℤ) (k : ℕ) → Names n i k → adjust (pos n) i ≡ pos k
unfolding adjust ◌+ℤ◌
adjust-Names n i k h = ground arith

check_range_lem :
    (n : ℕ) (x y : ℤ) (e b : ℕ)
    → (check_range x y (pos n) ≡ ok (e, b)) ↔ ((x ≡ pos e) × (y ≡ pos b) × (e < n) × (b ≤ e))
unfolding check_range
check_range_lem n x y e b = (λ h. ground arith, λ h. ground arith)

module _ {A : Type 0} {s : Stream A} (v : IsValid s) where
  check_adj-eq :
      (end beg : ℤ)
      → check_adj end beg s.deque s.qbound
        ≡ check_range (adjust (pos s.qbound) end) (adjust (pos s.qbound) beg) (pos s.qbound)
  unfolding check_adj
  check_adj-eq end beg =
      rw
        (
          v.full,
          to_int_fits (pos s.qbound) (omega arith) (omega arith),
          to_size-pos s.qbound (omega arith),
        )
        (ground arith)

  adjust_iff :
      (i : ℤ) (k : ℕ) → ((adjust (pos s.qbound) i ≡ pos k) × (k < s.qbound)) ↔ Names s.qbound i k
  unfolding adjust ◌+ℤ◌
  adjust_iff i k = (λ h. ground arith, λ h. ground arith)

  -- A valid stream accepts a range exactly if both ends name a position and the first is not
  -- behind the last, and then hands these positions over.
  pub check_adj_iff :
      (end beg : ℤ) (e b : ℕ)
      → (check_adj end beg s.deque s.qbound ≡ ok (e, b))
        ↔ (Names s.qbound end e × Names s.qbound beg b × (b ≤ e))
  check_adj_iff end beg e b = (
    λ h.
        let r = (check_range_lem s.qbound _ _ e b).0 (rw (← check_adj-eq end beg) h) in
        ((adjust_iff end e).0 (r.0, r.2), (adjust_iff beg b).0 (r.1, omega arith), r.3),
    λ h. rw (check_adj-eq end beg) (
        (check_range_lem s.qbound _ _ e b).1
          (((adjust_iff end e).1 h.0).0, ((adjust_iff beg b).1 h.1).0, h.0.0, h.2)),
  )

  -- The positions themselves are accepted.
  pub check_adj-pos :
      (e b : ℕ) → b ≤ e → e < s.qbound → check_adj (pos e) (pos b) s.deque s.qbound ≡ ok (e, b)
  check_adj-pos e b h g =
      (check_adj_iff (pos e) (pos b) e b).1 ((g, inl refl), (omega arith, inl refl), h)

  -- No position of a valid stream lies outside its deque.
  pub at_ok :
      (i : ℕ) → i < s.qbound → (a : A) × (at s.deque i ≡ ok a) × (get_elem? s.deque i ≡ some a)
  at_ok i h = let (a, p) = get_elem?-some s.deque i (rw v.full h) in (a, ground arith, p)

-- What `copy` writes for the positions `b` to `e`: one element as it stands, of several those that
-- have come in, `sz` at most.
abbrev pub copied : {A : Type 0} → Stream A → ℕ → ℕ → ℕ → List A
copied s sz e b =
    if e == b
    then take 1 (drop b s.deque)
    else slice b (min (sz + b) (min (e + 1) s.qcount)) s.deque

pub length-slice : {A : Type 0} (b e : ℕ) (d : List A) → e ≤ length d → length (slice b e d) ≡ e - b
length-slice b e d h = ground (arith, length-take (e - b) (drop b d), length-drop b d)

module _ {A : Type 0} {s : Stream A} (v : IsValid s) (sz : ℕ) (end beg : ℤ) where
  -- A refused range: an exception, and nothing has changed.
  pub copy-err :
      (x : StreamError)
      → check_adj end beg s.deque s.qbound ≡ err x
      → copy buffer sz end beg s ≡ (err x, s)
  unfolding copy
  copy-err x h = ground arith

  pub copy-ok :
      (e b : ℕ)
      → check_adj end beg s.deque s.qbound ≡ ok (e, b)
      → sz + b < size_mod
      → copy buffer sz end beg s ≡ (ok (length (copied s sz e b), copied s sz e b), set_mark b s)
  unfolding copy copy_to_ptr
  copy-ok e b h fits =
      let r = (check_adj_iff v end beg e b).0 h in
      let (a, p, q) = at_ok v b r.1.0 in
      ground (
        arith,
        take_one-drop b s.deque a q,
        length-slice b (min (sz + b) (min (e + 1) s.qcount)) s.deque,
        v,
      )
