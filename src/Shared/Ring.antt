-- ===== src/Shared/Ring.antt =====
-- The buffers as rings of `n` places: where the next element goes, and what stands behind it.
use native.Mathlib.Nat.{mul-le-mul_right, mod-eq_of_lt, add-mod_right, add-mul}
use tosdata_bridge.Prelude.{
  ℕ, suc, ◌+◌, ◌-◌, ◌*◌, ◌%◌, ◌^◌, ◌≤◌, ◌<◌, ◌≡◌, inl, inr, ap, ◌∙◌, arith, leb, if◌then◌else◌,
  Bool-cases,
}
use tosdata_bridge.Prelude.Int.{pos, pos_part, ◌+ℤ◌, ◌-ℤ◌, rem_ℕ, int_laws}
use tosdata_bridge.Shared.State.{Buffer, uint, uint_sub, route_to_buffer, spot}

-- A buffer of `n` places, of which the next to be written is `p`.
pub record IsRing {X : Type 0} (n p : ℕ) (b : Buffer X) : Type 0 where
  pub next : b.next_offset ≡ b.beg_offset + p * b.elem_size
  pub end : b.end_offset ≡ b.beg_offset + n * b.elem_size
  pub within : p < n
  pub spaced : b.beg_offset < b.elem_size
  pub fits : b.end_offset + b.elem_size < 2 ^ 31
  pub wrapped : b.loop_seq < 2 ^ 32

-- The place after `p`, and the place `k` before it.
abbrev pub next_place : ℕ → ℕ → ℕ
next_place n p = if leb n (p + 1) then 0 else p + 1

abbrev pub place_before : ℕ → ℕ → ℕ → ℕ
place_before n p k = if leb k p then p - k else p + n - k

-- Products by the size of an element keep the order.
pub scale_lt : (e a b : ℕ) → a < b → a * e + e ≤ b * e
scale_lt e a b h =
    let g : suc a * e ≤ b * e = mul-le-mul_right e (omega (arith, h)) in
    omega (arith, g, add-mul a 1 e)

-- In `long long` the remainder is that of the sum, which is not negative.
rem_sum : (a c d : ℕ) → c ≤ a + d → pos_part (rem_ℕ (pos a -ℤ pos c +ℤ pos d) d) ≡ (a + d - c) % d
rem_sum a c d h =
    let e : pos a -ℤ pos c +ℤ pos d ≡ pos (a + d - c) = omega (int_laws, h) in
    ap (λ z. pos_part (rem_ℕ z d)) e

module _ {X : Type 0} {n p : ℕ} {b : Buffer X} (r : IsRing n p b) where
  next_below : b.next_offset + b.elem_size ≤ b.end_offset
  next_below = omega (arith, r, scale_lt b.elem_size p n r.within)

  at_last : leb b.end_offset (uint (b.next_offset + b.elem_size)) ≡ leb n (p + 1)
  at_last =
      let e = add-mul p 1 b.elem_size in
      let h = next_below in
      let small : uint (b.next_offset + b.elem_size) ≡ b.next_offset + b.elem_size =
        mod-eq_of_lt (omega (arith, r, h)) in
      ap (leb b.end_offset) small ∙ elim (Bool-cases (leb n (p + 1))) [
        | inl g ↦
            let q : n ≡ p + 1 = ground (arith, g, r) in
            ground (arith, g, r, e, ap (λ k. k * b.elem_size) q)
        | inr g ↦
            let q : p + 1 < n = ground (arith, g) in
            ground (arith, g, r, e, scale_lt b.elem_size (p + 1) n q)
      ]

  -- A write moves on to the next place, and counts the laps.
  pub route_to_buffer-IsRing :
      (x : X)
      → IsRing n (next_place n p) (route_to_buffer x b)
        × ((route_to_buffer x b).loop_seq
            ≡ (if leb n (p + 1) then uint (b.loop_seq + 1) else b.loop_seq))
  unfolding route_to_buffer
  route_to_buffer-IsRing x =
      let e = add-mul p 1 b.elem_size in
      let h = next_below in
      let small : uint (b.next_offset + b.elem_size) ≡ b.next_offset + b.elem_size =
        mod-eq_of_lt (omega (arith, r, h)) in
      elim (Bool-cases (leb n (p + 1))) [
        | inl g ↦ ground (arith, g, r, at_last)
        | inr g ↦ ground (arith, g, r, at_last, small, e)
      ]

  pub ring_length : uint_sub b.end_offset b.beg_offset ≡ n * b.elem_size
  ring_length = omega (arith, r)

  -- An offset that lies a whole number of elements behind the head stays, modulo the length.
  offset_mod :
      (k : ℕ)
      → k < n
      → (b.beg_offset + k * b.elem_size) % (n * b.elem_size) ≡ b.beg_offset + k * b.elem_size
  offset_mod k h = mod-eq_of_lt (omega (arith, r, scale_lt b.elem_size k n h))

  back_mod :
      (k : ℕ)
      → 1 ≤ k
      → k ≤ n
      → (b.next_offset + n * b.elem_size - k * b.elem_size) % (n * b.elem_size)
        ≡ b.beg_offset + place_before n p k * b.elem_size
  back_mod k h g = elim (Bool-cases (leb k p)) [
    | inl q ↦
        let w : k ≤ p = ground (arith, q) in
        let f : (p - k + k) * b.elem_size ≡ p * b.elem_size =
          ap (λ i. i * b.elem_size) (omega (arith, w)) in
        let e : b.next_offset + n * b.elem_size - k * b.elem_size
            ≡ b.beg_offset + (p - k) * b.elem_size + n * b.elem_size =
          omega (arith, r, f, add-mul (p - k) k b.elem_size) in
        ap (λ i. i % (n * b.elem_size)) e
        ∙ add-mod_right (b.beg_offset + (p - k) * b.elem_size) (n * b.elem_size)
        ∙ offset_mod (p - k) (omega (arith, r, w))
        ∙ ground (arith, q)
    | inr q ↦
        let w : p < k = ground (arith, q) in
        let f : (p + n - k + k) * b.elem_size ≡ (p + n) * b.elem_size =
          ap (λ i. i * b.elem_size) (omega (arith, r, w, g)) in
        let e : b.next_offset + n * b.elem_size - k * b.elem_size
            ≡ b.beg_offset + (p + n - k) * b.elem_size =
          omega (arith, r, f, add-mul (p + n - k) k b.elem_size, add-mul p n b.elem_size) in
        ap (λ i. i % (n * b.elem_size)) e
        ∙ offset_mod (p + n - k) (omega (arith, r, w, g))
        ∙ ground (arith, q)
  ]

  -- The reader finds the place `k` before the next one.
  pub spot-place_before :
      (k : ℕ)
      → 1 ≤ k
      → k ≤ n
      → spot b (uint_sub b.end_offset b.beg_offset) k
        ≡ b.beg_offset + place_before n p k * b.elem_size
  unfolding spot
  spot-place_before k h g =
      let f : k * b.elem_size ≤ n * b.elem_size = mul-le-mul_right b.elem_size g in
      ap (λ d. pos_part (rem_ℕ (pos b.next_offset -ℤ pos (k * b.elem_size) +ℤ pos d) d)) ring_length
      ∙ rem_sum b.next_offset (k * b.elem_size) (n * b.elem_size) (omega (arith, f))
      ∙ back_mod k h g
