-- ===== src/Shared/Created.antt =====
-- A buffer as `CreateBuffer` makes it.
use native.Mathlib.Nat.{div-mul-le_self, le-div_iff_mul-le, mod-eq_of_lt}
use tosdata_bridge.Prelude.{
  ℕ, ◌+◌, ◌-◌, ◌*◌, ◌/◌, ◌^◌, ◌≤◌, ◌<◌, ◌≡◌, refl, sym, ap, subst, ◌∙◌, arith, ltb, if◌then◌else◌,
}
use tosdata_bridge.Shared.State.{
  new_reader, uint, uint_sub, fill_head, create_buffer, head_size, stamp_size, synced,
}
use tosdata_bridge.Shared.Ring.{IsRing}

module _ {X : Type 0} (blank : X) where
  fill_head-IsRing :
      (raw e : ℕ)
      → 100 ≤ raw
      → raw < 2 ^ 30
      → 40 ≤ e
      → e ≤ 80
      → (1 ≤ (raw - head_size) / e)
        × IsRing ((raw - head_size) / e) 0 (fill_head blank raw e)
        × (synced (fill_head blank raw e) ≡ new_reader)
  unfolding fill_head synced
  fill_head-IsRing raw e h g i j =
      let o : 1 ≤ (raw - head_size) / e =
        (le-div_iff_mul-le (omega (arith, i))).1 (omega (arith, h, j)) in
      let m = div-mul-le_self (raw - head_size) e in
      let d : uint_sub raw head_size ≡ raw - head_size = omega (arith, h, g) in
      let f : uint (head_size + uint_sub raw head_size / e * e)
          ≡ head_size + (raw - head_size) / e * e =
        ap (λ k. uint (head_size + k / e * e)) d ∙ mod-eq_of_lt (omega (arith, m, g)) in
      (
        o,
        record {
          next = omega arith;
          end = f;
          within = o;
          spaced = omega (arith, i);
          fits = omega (arith, f, m, g, j);
          wrapped = omega arith;
        },
        refl,
      )

  -- A new buffer, of memory that is at least one page and less than 2^30 bytes, is a ring of as many
  -- places as elements fit behind its head, at least one, of which the first is to be written; a
  -- new reader has read all of it.
  pub create_buffer-IsRing :
      (page_size buffer_sz type_size : ℕ)
      → 100 ≤ page_size
      → page_size < 2 ^ 30
      → buffer_sz < 2 ^ 30
      → type_size ≤ 40
      → let b = create_buffer blank page_size buffer_sz type_size in
        let raw = if ltb buffer_sz page_size then page_size else buffer_sz in
        let n = (raw - head_size) / (type_size + stamp_size) in
        (1 ≤ n) × IsRing n 0 b × (synced b ≡ new_reader)
  unfolding create_buffer
  create_buffer-IsRing page_size buffer_sz type_size h g i j =
      let raw = if ltb buffer_sz page_size then page_size else buffer_sz in
      let e = type_size + stamp_size in
      let s : e ≡ uint e = sym (mod-eq_of_lt (omega (arith, j))) in
      let k = (raw - head_size) / e in
      subst
        (λ c.
          (1 ≤ k)
          × IsRing k 0 (fill_head blank raw c)
          × (synced (fill_head blank raw c) ≡ new_reader))
        s
        (fill_head-IsRing raw e (ground (arith, h)) (ground (arith, g, i)) (omega arith)
          (omega (arith, j)))
