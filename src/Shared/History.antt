-- ===== src/Shared/History.antt =====
-- What stands in a ring of shared memory (src/service/engine.cpp) after any writes.
use native.Mathlib.Nat.{eq_of_mul-eq-mul_right}
use tosdata_bridge.Prelude.{
  ℕ, zero, suc, ◌+◌, ◌-◌, ◌*◌, ◌≤◌, ◌<◌, ◌≡◌, ◌≢◌, sym, ap, ap₂, ◌∙◌, some, List, [], ◌∷◌, ◌++◌,
  arith, ◌==◌, if◌then◌else◌, length, drop, drop-all, drop-get_elem?, get_elem?, get_elem?-some,
  get_elem?-append, get_elem?-append_last, length-append,
}
use tosdata_bridge.Shared.State.{Buffer, uint_sub, route_to_buffer, spot, extract_loop}
use tosdata_bridge.Shared.Ring.{IsRing, next_place, place_before, spot-place_before}

-- Two places have the same offset only if they are one.
offset_injective : (e b i j : ℕ) → 1 ≤ e → b + i * e ≡ b + j * e → i ≡ j
offset_injective e b i j h g = eq_of_mul-eq-mul_right e h i j (omega (arith, g))

-- The places before the next one, after a write.
place_first : (n p : ℕ) → p < n → place_before n (next_place n p) 1 ≡ p
place_first n p h = ground (arith, h)

place_later :
    (n p j : ℕ)
    → p < n
    → suc j < n
    → place_before n (next_place n p) (suc j + 1) ≡ place_before n p (j + 1)
place_later n p j h g = ground (arith, h, g)

place_other : (n p j : ℕ) → p < n → suc j < n → place_before n p (j + 1) ≢ p
place_other n p j h g e = ground (arith, h, g, e)

if_other : {A : Type 0} {a b : ℕ} (x y : A) → a ≢ b → (if a == b then x else y) ≡ y
if_other x y h = ground (arith, h)

module _ {X : Type 0} where
  memory-route_to_buffer :
      (x : X) (b : Buffer X) (o : ℕ)
      → (route_to_buffer x b).memory o ≡ (if o == b.next_offset then x else b.memory o)
  unfolding route_to_buffer
  memory-route_to_buffer x b o = ground arith

  pub beg_offset-route_to_buffer :
      (x : X) (b : Buffer X) → (route_to_buffer x b).beg_offset ≡ b.beg_offset
  unfolding route_to_buffer
  beg_offset-route_to_buffer x b = ground arith

  pub elem_size-route_to_buffer :
      (x : X) (b : Buffer X) → (route_to_buffer x b).elem_size ≡ b.elem_size
  unfolding route_to_buffer
  elem_size-route_to_buffer x b = ground arith

  -- The last element of `written` stands in the place before the next, and so on, `n` of them.
  abbrev pub Holds : ℕ → ℕ → Buffer X → List X → Type 0
  Holds n p b written =
      (k : ℕ) (x : X)
      → k < n
      → k < length written
      → get_elem? written (length written - 1 - k) ≡ some x
      → b.memory (b.beg_offset + place_before n p (k + 1) * b.elem_size) ≡ x

  memory-route_to_place :
      (n p : ℕ) (x : X) (b : Buffer X) (i : ℕ)
      → let t = route_to_buffer x b in
        t.memory (t.beg_offset + place_before n (next_place n p) i * t.elem_size) ≡ (
          if (b.beg_offset + place_before n (next_place n p) i * b.elem_size) == b.next_offset
          then x
          else b.memory (b.beg_offset + place_before n (next_place n p) i * b.elem_size))
  memory-route_to_place n p x b i =
      ap₂ (λ c d. (route_to_buffer x b).memory (c + place_before n (next_place n p) i * d))
        (beg_offset-route_to_buffer x b) (elem_size-route_to_buffer x b)
      ∙ memory-route_to_buffer x b (b.beg_offset + place_before n (next_place n p) i * b.elem_size)

  newest :
      (n p : ℕ) (x : X) (b : Buffer X) (written : List X)
      → IsRing n p b
      → Holds n p b written
      → (k : ℕ) (y : X) → k < n
      → k < length (written ++ x ∷ [])
      → get_elem? (written ++ x ∷ []) (length (written ++ x ∷ []) - 1 - k) ≡ some y
      → (if (b.beg_offset + place_before n (next_place n p) (k + 1) * b.elem_size) == b.next_offset
          then x
          else b.memory (b.beg_offset + place_before n (next_place n p) (k + 1) * b.elem_size))
        ≡ y
  newest n p x b written r h zero y f g e =
      let l = length-append written (x ∷ []) in
      let i : length (written ++ x ∷ []) - 1 - 0 ≡ length written = omega (arith, l) in
      let q : some x ≡ some y =
        sym (get_elem?-append_last written x) ∙ ap (get_elem? (written ++ x ∷ [])) (sym i) ∙ e in
      ground (arith, r, place_first n p r.within, q)
  newest n p x b written r h (suc j) y f g e =
      let l = length-append written (x ∷ []) in
      let i : length (written ++ x ∷ []) - 1 - suc j ≡ length written - 1 - j = omega (arith, l) in
      let w : j < length written = omega (arith, l, g) in
      let q : get_elem? written (length written - 1 - j) ≡ some y =
        sym (get_elem?-append written (x ∷ []) (length written - 1 - j) (omega (arith, w)))
        ∙ ap (get_elem? (written ++ x ∷ [])) (sym i)
        ∙ e in
      let a = place_before n p (j + 1) in
      let m : b.memory (b.beg_offset + a * b.elem_size) ≡ y = h j y (omega (arith, f)) w q in
      let c : place_before n (next_place n p) (suc j + 1) ≡ a = place_later n p j r.within f in
      let d : b.beg_offset + a * b.elem_size ≢ b.next_offset = λ t.
        place_other n p j r.within f
          (offset_injective b.elem_size b.beg_offset a p (omega (arith, r)) (t ∙ r.next)) in
      ap
        (λ v.
          if (b.beg_offset + v * b.elem_size) == b.next_offset
          then x
          else b.memory (b.beg_offset + v * b.elem_size))
        c
      ∙ if_other x (b.memory (b.beg_offset + a * b.elem_size)) d
      ∙ m

  pub route_to_buffer-Holds :
      (n p : ℕ) (x : X) (b : Buffer X) (written : List X)
      → IsRing n p b
      → Holds n p b written
      → Holds n (next_place n p) (route_to_buffer x b) (written ++ x ∷ [])
  route_to_buffer-Holds n p x b written r h k y f g e =
      memory-route_to_place n p x b (k + 1) ∙ newest n p x b written r h k y f g e

  -- The loop of the reader gives the last `m` elements, in the order of the writes.
  pub extract_loop-drop :
      (n p : ℕ) (b : Buffer X) (written : List X)
      → IsRing n p b
      → Holds n p b written
      → (m : ℕ) → m ≤ n
      → m ≤ length written
      → extract_loop b (uint_sub b.end_offset b.beg_offset) m ≡ drop (length written - m) written
  unfolding extract_loop
  extract_loop-drop n p b written r h zero f g =
      sym (ap (λ i. drop i written) (omega arith) ∙ drop-all written)
  extract_loop-drop n p b written r h (suc k) f g =
      let i = length written - 1 - k in
      let (x, e) = get_elem?-some written i (omega (arith, g)) in
      let s : spot b (uint_sub b.end_offset b.beg_offset) (suc k)
          ≡ b.beg_offset + place_before n p (k + 1) * b.elem_size =
        spot-place_before r (suc k) (omega arith) f
        ∙ ap (λ j. b.beg_offset + place_before n p j * b.elem_size) (omega arith) in
      let j : length written - suc k ≡ i = omega arith in
      let t : suc i ≡ length written - k = omega (arith, g) in
      ap₂ (◌∷◌) (ap b.memory s ∙ h k x (omega (arith, f)) (omega (arith, g)) e) (
        extract_loop-drop n p b written r h k (omega (arith, f)) (omega (arith, g))
        ∙ ap (λ q. drop q written) (sym t))
      ∙ sym (ap (λ q. drop q written) j ∙ drop-get_elem? i written x e)
