-- ===== src/Shared/Delivery.antt =====
-- From the engine to the client: what a read returns after any writes.
use native.Mathlib.Nat.{mul-div_cancel, add-mul, mul_assoc, mul-le-mul_right, mul-le-mul_left}
use tosdata_bridge.Prelude.{
  ℕ, ◌+◌, ◌-◌, ◌*◌, ◌/◌, ◌^◌, ◌≤◌, ◌<◌, ◌≡◌, refl, sym, ap, ap₂, subst, ◌∙◌, false, ◌&&◌, inl, inr,
  List, [], ◌∷◌, map, arith, leb, ◌==◌, Bool-cases, length, drop,
}
use tosdata_bridge.Prelude.Int.{pos, ◌+ℤ◌, ◌-ℤ◌, to_int, mul_ℕ, quot_ℕ, int_laws}
use tosdata_bridge.Prelude.Action.{Result, ok}
use tosdata_bridge.Shared.State.{
  Buffer, Reader, BufferError, uint, uint_sub, wrap_loops, elems_between, count_elems, extract_new,
  extract_from_buffer, synced,
}
use tosdata_bridge.Shared.Writes.{route_all, Written, route_all-Written}
use tosdata_bridge.Shared.Ring.{IsRing, ring_length, scale_lt}
use tosdata_bridge.Shared.History.{Holds, extract_loop-drop}

-- The difference of two positions, in `unsigned int` and read as a `long`.
position_diff : (a c : ℕ) → a < 2 ^ 31 → c < 2 ^ 31 → to_int (pos (uint_sub a c)) ≡ pos a -ℤ pos c
unfolding to_int ◌-ℤ◌
position_diff a c h g = ground (arith, h, g)

laps_diff : (l d : ℕ) → l < 2 ^ 32 → d < 2 ^ 32 → uint_sub (uint (l + d)) l ≡ d
laps_diff l d h g = omega (arith, h, g)

wrap_loops-pos : (d : ℕ) → wrap_loops (pos d) ≡ pos d
unfolding wrap_loops
wrap_loops-pos d = ground arith

-- The number of new elements, from the positions and the laps.
elems_between-eq :
    (a c d k e n : ℕ)
    → 1 ≤ e
    → a < 2 ^ 31
    → c < 2 ^ 31
    → a + d * (n * e) ≡ c + k * e
    → elems_between a c d (n * e) e ≡ pos k
unfolding elems_between
elems_between-eq a c d k e n h g i f =
    let s : pos a -ℤ pos c +ℤ pos (d * (n * e)) ≡ pos (k * e) = omega (int_laws, f) in
    ap₂ (λ z w. quot_ℕ (z +ℤ mul_ℕ w (n * e)) e) (position_diff a c g i) (wrap_loops-pos d)
    ∙ ap (λ z. quot_ℕ z e) s
    ∙ ap pos (mul-div_cancel k h)

module _ {X : Type 0} {n q : ℕ} {b : Buffer X} (r : IsRing n q b) where
  pub position : uint_sub b.next_offset b.beg_offset ≡ q * b.elem_size
  position = omega (arith, r, scale_lt b.elem_size q n r.within)

  position_small : q * b.elem_size < 2 ^ 31
  position_small = omega (arith, r, scale_lt b.elem_size q n r.within)

module _ {X : Type 0} {n q : ℕ} {b : Buffer X} (r : IsRing n q b) (xs : List X)
    (fits : length xs < 2 ^ 31) (w : Written n q b [] xs (route_all xs b)) where
  total :
      w.place * b.elem_size + w.laps * (n * b.elem_size) ≡ q * b.elem_size + length xs * b.elem_size
  total =
      let e = ap (λ i. i * b.elem_size) w.counted in
      omega (
        arith,
        e,
        add-mul w.place (w.laps * n) b.elem_size,
        add-mul q (length xs) b.elem_size,
        mul_assoc w.laps n b.elem_size,
      )

  place_position :
      uint_sub (route_all xs b).next_offset (route_all xs b).beg_offset ≡ w.place * b.elem_size
  place_position = position w.ring ∙ ap (λ e. w.place * e) w.sized

  laps-route_all : uint_sub (route_all xs b).loop_seq b.loop_seq ≡ w.laps
  laps-route_all =
      ap (λ l. uint_sub l b.loop_seq) w.looped
      ∙ laps_diff b.loop_seq w.laps r.wrapped (omega (arith, w.few, fits))

  length-route_all :
      uint_sub (route_all xs b).end_offset (route_all xs b).beg_offset ≡ n * b.elem_size
  length-route_all = ring_length w.ring ∙ ap (λ e. n * e) w.sized

  place_small : w.place * b.elem_size < 2 ^ 31
  place_small = subst (λ e. w.place * e < 2 ^ 31) w.sized (position_small w.ring)

  count_elems-route_all :
      count_elems
        (synced b)
        (route_all xs b)
        (uint_sub (route_all xs b).end_offset (route_all xs b).beg_offset)
      ≡ pos (length xs)
  unfolding count_elems synced
  count_elems-route_all =
      let f =
        elems_between-eq (w.place * b.elem_size) (q * b.elem_size) w.laps (length xs) b.elem_size n
          (omega (arith, r)) place_small (position_small r) total in
      let h = place_position in
      let i = position r in
      let j = laps-route_all in let k = length-route_all in let m = w.sized in cc

  -- A reader that is behind does not leave early.
  not_early :
      1 ≤ length xs
      → ((uint_sub (route_all xs b).next_offset (route_all xs b).beg_offset
            == uint_sub b.next_offset b.beg_offset)
          && (route_all xs b).loop_seq == b.loop_seq)
        ≡ false
  not_early some_new =
      let t = route_all xs b in
      elim (Bool-cases (
        (uint_sub t.next_offset t.beg_offset == uint_sub b.next_offset b.beg_offset)
        && t.loop_seq == b.loop_seq)) [
          | inl g ↦
              let e : uint_sub t.next_offset t.beg_offset ≡ uint_sub b.next_offset b.beg_offset =
                ground (arith, g) in
              let l : t.loop_seq ≡ b.loop_seq = ground (arith, g) in
              let a : w.place * b.elem_size ≡ q * b.elem_size =
                sym place_position ∙ e ∙ position r in
              let z : w.laps ≡ 0 =
                sym laps-route_all ∙ ap (λ i. uint_sub i b.loop_seq) l ∙ omega (arith, r) in
              let m : 1 * b.elem_size ≤ length xs * b.elem_size =
                mul-le-mul_right b.elem_size some_new in
              let zero_laps : w.laps * (n * b.elem_size) ≡ 0 =
                ap (λ i. i * (n * b.elem_size)) z ∙ omega arith in
              absurd (omega (arith, a, zero_laps, m, total, r))
          | inr g ↦ g
        ]

  capacity :
      uint_sub (route_all xs b).end_offset (route_all xs b).beg_offset / (route_all xs b).elem_size
      ≡ n
  capacity = ap₂ (λ d e. d / e) length-route_all w.sized ∙ mul-div_cancel n (omega (arith, r))

  extract_new-route_all :
      1 ≤ length xs
      → extract_new
          (synced b)
          (route_all xs b)
          (uint_sub (route_all xs b).end_offset (route_all xs b).beg_offset)
          (pos (length xs))
        ≡ (ok (drop (length xs - n) xs), synced (route_all xs b))
  unfolding extract_new
  extract_new-route_all some_new =
      let t = route_all xs b in
      let dlen = uint_sub t.end_offset t.beg_offset in
      let c = capacity in
      elim (Bool-cases (leb n (length xs))) [
        | inl g ↦
            let f =
              extract_loop-drop n w.place t xs w.ring w.holds n (omega arith) (ground (arith, g)) in
            ground (arith, some_new, g, c, f)
        | inr g ↦
            let f =
              extract_loop-drop n w.place t xs w.ring w.holds (length xs) (ground (arith, g))
                (omega arith) in
            let e : length xs - length xs ≡ length xs - n = ground (arith, g) in
            ground (arith, some_new, g, c, f, ap (λ i. drop i xs) e)
      ]

  read-Written :
      1 ≤ length xs
      → extract_from_buffer false (synced b) (route_all xs b)
        ≡ (ok (drop (length xs - n) xs), synced (route_all xs b))
  unfolding extract_from_buffer synced
  read-Written some_new =
      ground (arith, not_early some_new, count_elems-route_all, extract_new-route_all some_new)

drop-none : {X : Type 0} (n : ℕ) → drop {A = X} (0 - n) [] ≡ []
drop-none n = ground arith

module _ {X : Type 0} where
  read-none :
      (n : ℕ) (b : Buffer X)
      → extract_from_buffer false (synced b) b ≡ (ok (drop (0 - n) []), synced b)
  unfolding extract_from_buffer synced
  read-none n b = ground (arith, drop-none {X = X} n)

  Holds-none : (n p : ℕ) (b : Buffer X) → Holds n p b []
  Holds-none n p b k x f g e = absurd (omega (arith, g))

  -- A reader that has read everything, and then writes: the next read that gets the mutex returns
  -- the new elements in the order of the writes, if more than the ring has places for the newest
  -- of them, and has then read everything again.
  pub extract-route_all :
      (n q : ℕ) (xs : List X) {b : Buffer X}
      → IsRing n q b
      → length xs < 2 ^ 31
      → extract_from_buffer false (synced b) (route_all xs b)
        ≡ (ok (drop (length xs - n) xs), synced (route_all xs b))
  unfolding route_all
  extract-route_all n q [] {b} r fits = read-none n b
  extract-route_all n q (x ∷ xs) {b} r fits =
      read-Written r (x ∷ xs) fits (route_all-Written n q (x ∷ xs) b [] r (Holds-none n q b))
        (omega arith)

  -- Batches of writes, each with a read behind it.
  unfoldable pub poll : List (List X) → Reader → Buffer X → List (Result BufferError (List X))
  unfolding extract_from_buffer route_all
  poll [] r b = []
  poll (xs ∷ batches) r b =
      let t = route_all xs b in
      let (out, r') = extract_from_buffer false r t in out ∷ poll batches r' t

  -- No batch is larger than the ring.
  abbrev pub FitRing : ℕ → List (List X) → Type 0
  FitRing n [] = Unit
  FitRing n (xs ∷ batches) = (length xs ≤ n) × FitRing n batches

  ring_small : (n q : ℕ) (b : Buffer X) → IsRing n q b → n < 2 ^ 31
  ring_small n q b r =
      let h : n * 1 ≤ n * b.elem_size = mul-le-mul_left n (omega (arith, r)) in omega (arith, r, h)

  -- If no batch is larger than the ring, each read returns the batch before it, whole and in the
  -- order of the writes.
  pub poll-lossless :
      (n q : ℕ) (batches : List (List X)) {b : Buffer X}
      → IsRing n q b
      → FitRing n batches
      → poll batches (synced b) b ≡ map ok batches
  unfolding poll
  poll-lossless n q [] r f = refl
  poll-lossless n q (xs ∷ batches) {b} r f =
      let w = route_all-Written n q xs b [] r (Holds-none n q b) in
      let e = extract-route_all n q xs r (omega (arith, f.0, ring_small n q b r)) in
      let z : length xs - n ≡ 0 = omega (arith, f.0) in
      ap (λ p. p.0 ∷ poll batches p.1 (route_all xs b))
        (e ∙ ap (λ i. (ok (drop i xs), synced (route_all xs b))) z)
      ∙ ap (◌∷◌ (ok xs)) (poll-lossless n w.place batches w.ring f.1)
