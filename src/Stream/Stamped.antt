-- ===== src/Stream/Stamped.antt =====
-- What `copy` of the specialisation with a secondary deque (include/data_stream.hpp,
-- src/data_stream.tpp) writes, as pairs of an element and its stamp.
use mathlib.Core.List.{zip}
use tosdata_bridge.Prelude.{
  ℕ, zero, suc, ◌+◌, ◌-◌, ◌^◌, ◌≡◌, ◌≤◌, ◌<◌, refl, ap, ◌∙◌, List, [], ◌∷◌, some, arith, length,
  min, take, drop, ltb, ◌==◌, if◌then◌else◌, Bool-cases, inl, inr, take_one-drop, get_elem?,
  get_elem?-some, length-take, length-drop,
}
use tosdata_bridge.Prelude.Int.{ℤ, size_mod}
use tosdata_bridge.Prelude.Action.{ok, ◌>>=◌}
use tosdata_bridge.Stream.State.{Stream, check_adj}
use tosdata_bridge.Stream.Read
use tosdata_bridge.Stream.Read.{buffer, slice, copy_to_ptr, set_mark}
use tosdata_bridge.Stream.Index.{Names, check_adj_iff, copied, copy-ok, length-slice}
use tosdata_bridge.Stream.Unread.{qbound-set_mark}
use tosdata_bridge.Stream.Secondary
use tosdata_bridge.Stream.Secondary.{PairStream, on_base, copy_secondary}
use tosdata_bridge.Stream.Paired.{IsPaired, paired, check_adj-length}

-- What the second half writes, of a secondary deque that has all positions.
abbrev stamps : {D : Type 0} → List D → ℕ → ℕ → ℕ → ℕ → List D
stamps ds qcount sz e b =
    if e == b then take 1 (drop b ds) else slice b (min (sz + b) (min (e + 1) qcount)) ds

module _ {A D : Type 0} where
  zip-take : (n : ℕ) (xs : List A) (ds : List D) → zip (take n xs) (take n ds) ≡ take n (zip xs ds)
  unfolding zip
  zip-take zero xs ds = refl
  zip-take (suc n) [] ds = refl
  zip-take (suc n) (x ∷ xs) [] = refl
  zip-take (suc n) (x ∷ xs) (d ∷ ds) = ap (◌∷◌ (x, d)) (zip-take n xs ds)

  zip-drop :
      (n : ℕ) (xs : List A) (ds : List D)
      → length xs ≡ length ds
      → zip (drop n xs) (drop n ds) ≡ drop n (zip xs ds)
  unfolding zip
  zip-drop zero xs ds h = refl
  zip-drop (suc n) [] [] h = refl
  zip-drop (suc n) [] (d ∷ ds) h = absurd (omega (arith, h))
  zip-drop (suc n) (x ∷ xs) [] h = absurd (omega (arith, h))
  zip-drop (suc n) (x ∷ xs) (d ∷ ds) h = zip-drop n xs ds (omega (arith, h))

  zip-slice :
      (b e : ℕ) (xs : List A) (ds : List D)
      → length xs ≡ length ds
      → zip (slice b e xs) (slice b e ds) ≡ slice b e (zip xs ds)
  unfolding zip
  zip-slice b e xs ds h = elim (Bool-cases (ltb b e)) [
    | inl g ↦
        let f = zip-take (e - b) (drop b xs) (drop b ds) ∙ ap (take (e - b)) (zip-drop b xs ds h) in
        ground (arith, g, f)
    | inr g ↦ ground (arith, g)
  ]

  copy_secondary-ok :
      (s : PairStream A D) (sz : ℕ) (end beg : ℤ) (e b : ℕ) {R : Type 0} (n : ℕ) (out : R) (d : D)
      → check_adj end beg s.deque_secondary s.base.qbound ≡ ok (e, b)
      → get_elem? s.deque_secondary b ≡ some d
      → sz + b < size_mod
      → e + 1 < 2 ^ 32
      → min (e + 1) s.base.qcount ≤ length s.deque_secondary
      → let ds = stamps s.deque_secondary s.base.qcount sz e b in
        copy_secondary buffer sz end beg (n, out) s ≡ (ok (length ds, (out, ds)), s)
  unfolding copy_secondary copy_to_ptr
  copy_secondary-ok s sz end beg e b n out d h f fits small full = ground (
    arith,
    h,
    f,
    take_one-drop b s.deque_secondary d f,
    length-slice b (min (sz + b) (min (e + 1) s.base.qcount)) s.deque_secondary,
  )

  -- The first half, when it does not throw, hands over to the second.
  copy-then :
      (s : PairStream A D) (sz : ℕ) (end beg : ℤ) (n : ℕ) (out : List A) (t : Stream A)
      → Read.copy buffer sz end beg s.base ≡ (ok (n, out), t)
      → Secondary.copy buffer buffer sz end beg s
        ≡ copy_secondary buffer sz end beg (n, out) (record s { base = t })
  unfolding Secondary.copy
  copy-then s sz end beg n out t h =
      ap (λ r. (on_base (λ _. r) >>= copy_secondary buffer sz end beg) s) h

module _ {A D : Type 0} {s : PairStream A D} (p : IsPaired s) where
  -- The elements and the stamps that are written are the pairs that stand there.
  zip-copied :
      (sz e b : ℕ)
      → zip (copied s.base sz e b) (stamps s.deque_secondary s.base.qcount sz e b)
        ≡ copied (paired s) sz e b
  zip-copied sz e b =
      let l : length s.base.deque ≡ length s.deque_secondary = omega (arith, p) in
      let xs = s.base.deque in
      let ds = s.deque_secondary in
      let last = min (sz + b) (min (e + 1) s.base.qcount) in
      elim (Bool-cases (e == b)) [
        | inl g ↦
            let f = zip-take 1 (drop b xs) (drop b ds) ∙ ap (take 1) (zip-drop b xs ds l) in
            ground (arith, g, f)
        | inr g ↦ ground (arith, g, zip-slice b last xs ds l)
      ]

  length-stamps :
      (sz e b : ℕ)
      → b < s.base.qbound
      → length (stamps s.deque_secondary s.base.qcount sz e b) ≡ length (copied s.base sz e b)
  length-stamps sz e b h =
      let last = min (sz + b) (min (e + 1) s.base.qcount) in
      elim (Bool-cases (e == b)) [
        | inl g ↦ ground (
          arith,
          p,
          length-take 1 (drop b s.base.deque),
          length-take 1 (drop b s.deque_secondary),
          length-drop b s.base.deque,
          length-drop b s.deque_secondary,
          g,
          h,
        )
        | inr g ↦
            ground
              (arith, p, g, length-slice b last s.base.deque, length-slice b last s.deque_secondary)
      ]

  -- `copy` with places for the elements and for the stamps, over a range that names the positions
  -- from `b` to `e`: as many stamps as elements are written, and each element with its stamp is a
  -- pair that came in together; the marker goes before the first of them.
  pub copy-pairs :
      (sz : ℕ) (end beg : ℤ) (e b : ℕ)
      → Names s.base.qbound end e
      → Names s.base.qbound beg b
      → b ≤ e
      → sz + b < size_mod
      → (xs : List A) × (ds : List D) × (Secondary.copy buffer buffer sz end beg s
          ≡ (ok (length ds, (xs, ds)), record s { base = set_mark b s.base }))
        × (length ds ≡ length xs)
        × (zip xs ds ≡ copied (paired s) sz e b)
  unfolding set_mark
  copy-pairs sz end beg e b n m h fits =
      let c = (check_adj_iff p.valid end beg e b).1 (n, m, h) in
      let t = set_mark b s.base in
      let xs = copied s.base sz e b in
      let (d, f) = get_elem?-some s.deque_secondary b (omega (arith, p, m)) in
      (
        copied s.base sz e b,
        stamps s.deque_secondary s.base.qcount sz e b,
        copy-then s sz end beg (length xs) xs t (copy-ok p.valid sz end beg e b c fits)
            ∙ copy_secondary-ok (record s { base = t }) sz end beg e b (length xs) xs d
                (ap (check_adj end beg s.deque_secondary) (qbound-set_mark b s.base)
                  ∙ check_adj-length end beg s.base.qbound s.deque_secondary s.base.deque
                      (omega (arith, p))
                  ∙ c)
                f fits (omega (arith, n)) (omega (arith, p)),
        length-stamps sz e b m.0,
        zip-copied sz e b,
      )
