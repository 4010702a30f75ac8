-- ===== src/Prelude/Order.antt =====
-- The order of texts, and the entries of a map of texts in the order of their keys, in which a loop over a
-- `std::map<std::string, ...>` goes through them.
use Prim.Native.Char.{code}
use Prim.Native.String.{String}
use text.Mathlib.TextEquality.{Char-path}
use tosdata_bridge.Prelude.{
  ◌≡◌, refl, ap, ap₂, Bool, true, false, some, List, [], ◌∷◌, ltb, arith, if◌then◌else◌, Bool-cases,
  inl, inr,
}
use tosdata_bridge.Prelude.Dict.{Eq, lookup}

-- `operator<` of `std::string`, by the numbers of the characters.
unfoldable pub text_less : String → String → Bool
text_less s String.[] = false
text_less String.[] (String.◌∷◌ d t) = true
text_less (String.◌∷◌ c s) (String.◌∷◌ d t) =
    if ltb (code c) (code d) then true else if ltb (code d) (code c) then false else text_less s t

text_less_irrefl : (s : String) → text_less s s ≡ false
unfolding text_less
text_less_irrefl String.[] = refl
text_less_irrefl (String.◌∷◌ c s) = ground (arith, text_less_irrefl s)

text_less_total : (s t : String) → text_less s t ≡ false → text_less t s ≡ false → s ≡ t
unfolding text_less
text_less_total String.[] String.[] h g = refl
text_less_total String.[] (String.◌∷◌ d t) h g = absurd (ground (arith, h))
text_less_total (String.◌∷◌ c s) String.[] h g = absurd (ground (arith, g))
text_less_total (String.◌∷◌ c s) (String.◌∷◌ d t) h g =
    ap₂ String.◌∷◌ (Char-path c d (ground (arith, h, g)))
      (text_less_total s t (ground (arith, h, g)) (ground (arith, h, g)))

text_less_trans :
    (s t u : String) → text_less s t ≡ true → text_less t u ≡ true → text_less s u ≡ true
unfolding text_less
text_less_trans s String.[] u h g = absurd (ground (arith, h))
text_less_trans s (String.◌∷◌ d t) String.[] h g = absurd (ground (arith, g))
text_less_trans String.[] (String.◌∷◌ d t) (String.◌∷◌ e u) h g = refl
text_less_trans (String.◌∷◌ c s) (String.◌∷◌ d t) (String.◌∷◌ e u) h g =
    ground (arith, h, g, text_less_trans s t u)

less_beq : ⦃texts : Eq String⦄ → (s t : String) → text_less s t ≡ true → texts.beq s t ≡ false
less_beq ⦃texts⦄ s t h = elim (Bool-cases (texts.beq s t)) [
  | inr e ↦ e
  | inl e ↦
      let q : text_less s t ≡ text_less t t = ap (λ x. text_less x t) ((texts.beq_iff s t).0 e) in
      absurd (ground (arith, h, q, text_less_irrefl t))
]

module _ {V : Type 0} where
  -- An entry in its place among entries in order.
  unfoldable pub put_in_order : String → V → List (String × V) → List (String × V)
  put_in_order k v [] = (k, v) ∷ []
  put_in_order k v ((j, w) ∷ m) =
      if text_less k j
      then (k, v) ∷ (j, w) ∷ m
      else if text_less j k
      then (j, w) ∷ put_in_order k v m
      else (j, v) ∷ m

  -- The entries of a map, from the first key on.
  unfoldable pub in_order : List (String × V) → List (String × V)
  unfolding put_in_order
  in_order [] = []
  in_order ((k, v) ∷ m) = put_in_order k v (in_order m)

  -- Each key is less than all that follow.
  abbrev pub Before : String → List (String × V) → Type 0
  Before k [] = Unit
  Before k ((j, w) ∷ m) = (text_less k j ≡ true) × Before k m

  abbrev pub Ascending : List (String × V) → Type 0
  Ascending [] = Unit
  Ascending ((k, v) ∷ m) = Before k m × Ascending m

  Before-less :
      (h k : String) (m : List (String × V)) → text_less h k ≡ true → Before k m → Before h m
  Before-less h k [] a b = tt
  Before-less h k ((j, w) ∷ m) a b = (text_less_trans h k j a b.0, Before-less h k m a b.1)

  put_in_order-Before :
      (h k : String) (v : V) (m : List (String × V))
      → text_less h k ≡ true
      → Before h m
      → Before h (put_in_order k v m)
  unfolding put_in_order
  put_in_order-Before h k v [] a b = (a, tt)
  put_in_order-Before h k v ((j, w) ∷ m) a b = elim (Bool-cases (text_less k j)) [
    | inl d ↦ rw (put_in_order, d) (a, b)
    | inr d ↦ elim (Bool-cases (text_less j k)) [
      | inl e ↦ rw (put_in_order, d, e) (b.0, put_in_order-Before h k v m a b.1)
      | inr e ↦ rw (put_in_order, d, e) b
    ]
  ]

  put_in_order-Ascending :
      (k : String) (v : V) (m : List (String × V)) → Ascending m → Ascending (put_in_order k v m)
  unfolding put_in_order
  put_in_order-Ascending k v [] a = (tt, tt)
  put_in_order-Ascending k v ((j, w) ∷ m) a = elim (Bool-cases (text_less k j)) [
    | inl b ↦ rw (put_in_order, b) ((b, Before-less k j m b a.0), a)
    | inr b ↦ elim (Bool-cases (text_less j k)) [
      | inl d ↦
          rw (put_in_order, b, d)
            (put_in_order-Before j k v m d a.0, put_in_order-Ascending k v m a.1)
      | inr d ↦ rw (put_in_order, b, d) a
    ]
  ]

  pub in_order-Ascending : (m : List (String × V)) → Ascending (in_order m)
  unfolding in_order
  in_order-Ascending [] = tt
  in_order-Ascending ((k, v) ∷ m) = put_in_order-Ascending k v (in_order m) (in_order-Ascending m)

  module _ ⦃texts : Eq String⦄ where
    lookup-put_in_order :
        (k j : String) (v : V) (m : List (String × V))
        → lookup j (put_in_order k v m) ≡ (if texts.beq k j then some v else lookup j m)
    unfolding put_in_order
    lookup-put_in_order k j v [] = refl
    lookup-put_in_order k j v ((i, w) ∷ m) = elim (Bool-cases (text_less k i)) [
      | inl b ↦ rw (put_in_order, b) refl
      | inr b ↦ elim (Bool-cases (text_less i k)) [
        | inl d ↦
            rw (put_in_order, b, d)
              (ground (
                arith,
                lookup-put_in_order k j v m,
                less_beq i k d,
                texts.beq_iff i j,
                texts.beq_iff k j,
                texts.beq_iff i k,
              ))
        | inr d ↦
            rw (put_in_order, b, d)
              (ground (
                arith,
                (texts.beq_iff k i).1 (text_less_total k i b d),
                texts.beq_iff i j,
                texts.beq_iff k j,
                texts.beq_iff k i,
              ))
      ]
    ]

    pub lookup-in_order : (j : String) (m : List (String × V)) → lookup j (in_order m) ≡ lookup j m
    unfolding in_order
    lookup-in_order j [] = refl
    lookup-in_order j ((k, v) ∷ m) =
        ground (arith, lookup-put_in_order k j v (in_order m), lookup-in_order j m)
