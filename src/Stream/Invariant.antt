-- ===== src/Stream/Invariant.antt =====
-- The representation invariant of `DataStream` (src/data_stream.tpp), on the length of the deque,
-- the count and the marker, and the operations on it.
use tosdata_bridge.Prelude.{
  ℕ, ◌≤◌, ◌≡◌, Bool, arith, length, length-pop_back, length-resize, length-replicate,
}
use tosdata_bridge.Prelude.Int.{pos, negsuc, ◌+ℤ◌, ◌-ℤ◌, ◌≤ℤ◌, ◌<ℤ◌}
use tosdata_bridge.Stream.State.{
  Stream, max_bound_size, clamp_bound, new_stream, copy_stream, push, set_bound_size,
}
use tosdata_bridge.Stream.Read.{set_mark}

module _ {A : Type 0} where
  pub record IsValid (s : Stream A) : Type 0 where
    pub full : length s.deque ≡ s.qbound
    pub bound_low : 1 ≤ s.qbound
    pub bound_high : s.qbound ≤ max_bound_size
    pub counted : s.qcount ≤ s.qbound
    pub mark_low : negsuc 0 ≤ℤ s.mark_count
    pub mark_high : s.mark_count <ℤ pos s.qbound

  pub new_stream-IsValid : (blank : A) (sz : ℕ) → IsValid (new_stream blank sz)
  unfolding new_stream
  new_stream-IsValid blank sz = ground (arith, length-replicate (clamp_bound sz) blank)

  pub copy_stream-IsValid : {s : Stream A} → IsValid s → IsValid (copy_stream s)
  unfolding copy_stream
  copy_stream-IsValid v = ground arith

  pub push-IsValid : (got : Bool) (x : A) {s : Stream A} → IsValid s → IsValid (push got x s)
  unfolding push ◌+ℤ◌ ◌-ℤ◌
  push-IsValid got x {s} v = ground (arith, length-pop_back x s.deque)

  pub set_bound_size-IsValid :
      (blank : A) (sz : ℕ) {s : Stream A} → IsValid s → IsValid (set_bound_size blank sz s).1
  unfolding set_bound_size ◌-ℤ◌
  set_bound_size-IsValid blank sz {s} v =
      ground (arith, length-resize (clamp_bound sz) blank s.deque)

  pub set_mark-IsValid :
      (beg : ℕ) {s : Stream A} → IsValid s → beg ≤ s.qbound → IsValid (set_mark beg s)
  unfolding set_mark ◌-ℤ◌
  set_mark-IsValid beg v h = ground arith
