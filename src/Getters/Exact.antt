-- ===== src/Getters/Exact.antt =====
-- `TOSDB_GetStreamSnapshot<T, b>` (src/client/client_get.cpp): the vector that it makes, and what the
-- stream writes to it.
use tosdata_bridge.Prelude.{
  ℕ, ◌+◌, ◌-◌, ◌%◌, ◌^◌, ◌≤◌, ◌<◌, ◌≡◌, refl, ap, ap₂, Option, Bool-cases, inl, inr, ◌∙◌, some,
  none, List, [], length, min, arith, ◌==◌, take, drop, length-take, length-drop, ltb,
  if◌then◌else◌,
}
use tosdata_bridge.Prelude.Int.{ℤ, pos, negsuc, ◌+ℤ◌, ◌-ℤ◌, to_int, to_size, size_mod, to_int_fits}
use tosdata_bridge.Prelude.Action.{Result, Action, ok}
use tosdata_bridge.Topics.Enum.{
  ElementType, string_type, long_type, double_type, long_long_type, float_type,
}
use tosdata_bridge.Stream.State.{Stream, StreamError, max_bound_size, check_adj}
use tosdata_bridge.Stream.Read.{Dest, buffer, copy, copy_strings, set_mark}
use tosdata_bridge.Stream.Invariant.{IsValid}
use tosdata_bridge.Stream.Index.{Names, check_adj-pos, copied, copy-ok}
use tosdata_bridge.Block.State.{max_block_sz}
use tosdata_bridge.Elements.Push.{Element, Conversions}
use tosdata_bridge.Elements.Any.{Values, AnyStream, plain, bound_size}
use tosdata_bridge.Elements.Copies.{overload, unstamped, as_any, str_data_sz}
use tosdata_bridge.Elements.Reads.{any_copy, any_copies, any_reads, state_of}
use tosdata_bridge.Getters.Snapshots.{
  from_end, snapshot_length, snapshot_range, snapshot_read, snapshot_checked, snapshot_copy,
}

-- An index that names a position is adjusted to it.
from_end-Names : (n : ℕ) (i : ℤ) (k : ℕ) → n ≤ max_bound_size → Names n i k → from_end n i ≡ pos k
unfolding from_end
from_end-Names n (pos j) k h a = ground arith
from_end-Names n (negsuc j) k h a =
    let q : from_end n (negsuc j) ≡ to_int (negsuc j +ℤ pos n) = ground arith in
    let e : (negsuc j +ℤ pos n) ≡ pos k = ground arith in
    q ∙ ap to_int e ∙ to_int_fits (pos k) (omega (arith, a)) (omega arith)

snapshot_length-pos :
    (size e b : ℕ)
    → e < max_block_sz
    → size ≤ max_block_sz
    → snapshot_length size (pos e) (pos b) ≡ (if ltb e b then none else some (min (e + 1) size - b))
unfolding snapshot_length ◌-ℤ◌ to_size
snapshot_length-pos size e b h g = ground arith

overload-own :
    {F R N D S : Type 0} (cv : Conversions F R) (e : ElementType)
    (own : Dest → Action S StreamError (N × (List (Element F R e) × List D)))
    (texts : Action S StreamError (N × (List (List ℕ) × List D))) (dest : Dest)
    → overload cv e e own texts dest ≡ own dest
unfolding overload
overload-own cv string_type own texts dest = refl
overload-own cv long_type own texts dest = refl
overload-own cv double_type own texts dest = refl
overload-own cv long_long_type own texts dest = refl
overload-own cv float_type own texts dest = refl

-- The copy of a range that has come in, into an array of its size.
copied-exact :
    {A : Type 0} {s : Stream A} (v : IsValid s) (e b n : ℕ)
    → b ≤ e
    → e < s.qbound
    → n ≡ min (e + 1) s.qcount - b
    → 1 ≤ n
    → (copied s n e b ≡ take n (drop b s.deque)) × (length (take n (drop b s.deque)) ≡ n)
copied-exact {s = s} v e b n h g k p =
    let m : min (n + b) (min (e + 1) s.qcount) - b ≡ n = omega arith in
    (ground (arith, m), ground (arith, length-take n (drop b s.deque), length-drop b s.deque, v))

as_any-unstamped :
    {F R D A S : Type 0} (m : Action S StreamError (ℕ × A)) (make_any : S → AnyStream F R D)
    (s t : S) (n : ℕ) (out : A)
    → m s ≡ (ok (n, out), t)
    → as_any make_any (unstamped {D = D} m) s ≡ (ok (n, (out, [])), make_any t)
as_any-unstamped m make_any s t n out h = ground (arith, h)

module _ {F R G D : Type 0} (vs : Values F R G D) (e : ElementType) (k : ℕ)
    {s : Stream (Element F R e)} (v : IsValid s) (small : s.qbound ≤ max_block_sz) where
  -- The copy of the stream's own type.
  any_copy-own :
      (dts : Dest) (n : ℕ) (end beg : ℤ) (x y : ℕ)
      → check_adj end beg s.deque s.qbound ≡ ok (x, y)
      → n + y < size_mod
      → any_copy vs e buffer dts n end beg (plain e k s)
        ≡ (ok (length (copied s n x y), (copied s n x y, [])), plain e k (set_mark y s))
  unfolding any_copy
  any_copy-own dts n end beg x y h fits =
      ap
        (λ (m : Action (Stream (Element F R e)) StreamError (ℕ × (List (Element F R e) × List D))).
          as_any (plain e k) m s)
        (overload-own vs.conversions e (λ d. unstamped (copy d n end beg))
          (unstamped (copy_strings (vs.generic e) buffer n str_data_sz end beg)) buffer)
      ∙ as_any-unstamped (copy buffer n end beg) (plain e k) s (set_mark y s)
          (length (copied s n x y)) (copied s n x y) (copy-ok v n end beg x y h fits)

  snapshot_read-eq :
      (dts : Dest) (end beg : ℤ) (x y : ℕ)
      → Names s.qbound end x
      → Names s.qbound beg y
      → snapshot_read (any_reads vs) (any_copies vs e) dts end beg (plain e k s)
        ≡ snapshot_checked
            (any_reads vs)
            (any_copies vs e)
            dts
            (pos x)
            (pos y)
            (if ltb x y then none else some (min (x + 1) s.qcount - y))
            (plain e k s)
  unfolding snapshot_read snapshot_range bound_size state_of
  snapshot_read-eq dts end beg x y h g =
      let checked = snapshot_checked (any_reads vs) (any_copies vs e) dts in
      let m : s.qbound % 2 ^ 32 ≡ s.qbound = omega (arith, v) in
      ap₂ (λ a b. checked a b (snapshot_length s.qcount a b) (plain e k s))
        (ap (λ j. from_end j end) m ∙ from_end-Names s.qbound end x v.bound_high h)
        (ap (λ j. from_end j beg) m ∙ from_end-Names s.qbound beg y v.bound_high g)
      ∙ ap (λ o. checked (pos x) (pos y) o (plain e k s))
          (snapshot_length-pos s.qcount x y (omega (arith, h, small)) (omega (arith, v, small)))

  abbrev Copied : Type 0
  Copied = Result StreamError (Option (ℕ × (List (Element F R e) × List D))) × AnyStream F R D

  snapshot_copy-eq :
      (dts : Dest) (x y n : ℕ)
      → x < s.qbound
      → y ≤ x
      → n ≡ min (x + 1) s.qcount - y
      → snapshot_copy (any_reads vs) (any_copies vs e) dts (pos x) (pos y) n (plain e k s) ≡ (
          if n == 0
          then (ok (some (0, ([], []))), plain e k s)
          else (ok (some (n, (take n (drop y s.deque), []))), plain e k (set_mark y s)))
  unfolding snapshot_copy
  snapshot_copy-eq dts x y n h g m = elim (Bool-cases (n == 0)) [
    | inl z ↦ ground (arith, z)
    | inr z ↦
        let q =
          any_copy-own dts n (pos x) (pos y) x y (check_adj-pos v x y g h)
            (omega (arith, m, v, small)) in
        let c = copied-exact v x y n g h m (ground (arith, z)) in ground (arith, z, q, c)
  ]

  checked-eq :
      (dts : Dest) (x y : ℕ)
      → x < s.qbound
      → let n = min (x + 1) s.qcount - y in
        snapshot_checked
          (any_reads vs)
          (any_copies vs e)
          dts
          (pos x)
          (pos y)
          (if ltb x y then none else some n)
          (plain e k s)
        ≡ (if ltb x y
            then (ok none, plain e k s)
            else if n == 0
            then (ok (some (0, ([], []))), plain e k s)
            else (ok (some (n, (take n (drop y s.deque), []))), plain e k (set_mark y s)))
  unfolding snapshot_checked
  checked-eq dts x y h = elim (Bool-cases (ltb x y)) [
    | inl b ↦ rw b refl
    | inr b ↦ rw b (snapshot_copy-eq dts x y (min (x + 1) s.qcount - y) h (ground (arith, b)) refl)
  ]

  -- Of a valid stream without stamps, whose bound is at most `TOSDB_MAX_BLOCK_SZ` (2^24), as a vector of
  -- the stream's own type, with indices that name the positions `x` and `y`: if `y` is behind `x` the
  -- indices are refused. Else the vector is as long as the part of the range that has come in, each of
  -- its elements is written, with the values of that part, and the marker is put before the first; if
  -- nothing of the range has come in the stream is as it was.
  pub snapshot_read-exact :
      (dts : Dest) (end beg : ℤ) (x y : ℕ)
      → Names s.qbound end x
      → Names s.qbound beg y
      → let n = min (x + 1) s.qcount - y in
        (length (take n (drop y s.deque)) ≡ n)
        × (snapshot_read (any_reads vs) (any_copies vs e) dts end beg (plain e k s) ≡ (
            if ltb x y
            then (ok none, plain e k s)
            else if n == 0
            then (ok (some (0, ([], []))), plain e k s)
            else (ok (some (n, (take n (drop y s.deque), []))), plain e k (set_mark y s))))
  snapshot_read-exact dts end beg x y h g =
      let n = min (x + 1) s.qcount - y in
      (
        ground (arith, length-take n (drop y s.deque), length-drop y s.deque, v),
        snapshot_read-eq dts end beg x y h g ∙ checked-eq dts x y h.0,
      )
