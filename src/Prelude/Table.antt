-- ===== src/Prelude/Table.antt =====
-- `operator[]` of a map that is assigned to, and pairs as keys.
use tosdata_bridge.Prelude.{
  is_nil, ◌≡◌, refl, ap, ◌↔◌, true, false, ◌&&◌, ◌||◌, not, none, some, List, [], ◌∷◌, arith,
  if◌then◌else◌,
}
use tosdata_bridge.Prelude.Dict.{
  Eq, lookup, keys, set_at, lookup-set_at, keys-set_at, contains-keys, is_some, Distinct, erase,
  insert, lookup-erase, beq_refl, Every, Every-set_at,
}

module _ {ℓ κ} {K : Type ℓ} {L : Type κ} ⦃e : Eq K⦄ ⦃f : Eq L⦄ where
  pub pair_beq_iff : (p q : K × L) → ((e.beq p.0 q.0 && f.beq p.1 q.1) ≡ true) ↔ (p ≡ q)
  pair_beq_iff p q = ground (
    arith,
    e.beq_iff p.0 q.0,
    f.beq_iff p.1 q.1,
    ap (λ (r : K × L). r.0),
    ap (λ (r : K × L). r.1),
  )

  instance abbrev pub pair_eq : Eq (K × L)
  pair_eq = record { beq = λ p q. e.beq p.0 q.0 && f.beq p.1 q.1; beq_iff = pair_beq_iff }

module _ {ℓ κ} {K : Type ℓ} ⦃e : Eq K⦄ {V : Type κ} where
  -- The value of a key becomes this one, whether the key was there or not.
  unfoldable pub put : K → V → List (K × V) → List (K × V)
  put k v m = if is_some (lookup k m) then set_at k v m else (k, v) ∷ m

  pub lookup-put :
      (k j : K) (v : V) (m : List (K × V))
      → lookup j (put k v m) ≡ (if e.beq k j then some v else lookup j m)
  unfolding put
  lookup-put k j v m = ground (arith, lookup-set_at k j v m)

  pub put-Distinct :
      (k : K) (v : V) (m : List (K × V)) → Distinct (keys m) → Distinct (keys (put k v m))
  unfolding put
  put-Distinct k v m d = ground (arith, keys-set_at k v m, contains-keys k m)

  set_at-set_at : (k : K) (v w : V) (m : List (K × V)) → set_at k v (set_at k w m) ≡ set_at k v m
  set_at-set_at k v w [] = refl
  set_at-set_at k v w ((j, u) ∷ m) = ground (arith, set_at-set_at k v w m)

  set_at_self : (k : K) (v : V) (m : List (K × V)) → lookup k m ≡ some v → set_at k v m ≡ m
  set_at_self k v [] h = refl
  set_at_self k v ((j, u) ∷ m) h = ground (arith, set_at_self k v m)

  erase-set_at : (k : K) (v : V) (m : List (K × V)) → erase k (set_at k v m) ≡ erase k m
  erase-set_at k v [] = refl
  erase-set_at k v ((j, u) ∷ m) = ground (arith, erase-set_at k v m)

  pub erase_absent : (k : K) (m : List (K × V)) → lookup k m ≡ none → erase k m ≡ m
  erase_absent k [] h = refl
  erase_absent k ((j, u) ∷ m) h = ground (arith, erase_absent k m)

  pub put-put : (k : K) (v w : V) (m : List (K × V)) → put k v (put k w m) ≡ put k v m
  unfolding put
  put-put k v w m = ground (arith, set_at-set_at k v w m, lookup-set_at k k w m, beq_refl k)

  pub put_self : (k : K) (v : V) (m : List (K × V)) → lookup k m ≡ some v → put k v m ≡ m
  unfolding put
  put_self k v m h = ground (arith, set_at_self k v m h)

  pub put_present :
      (k : K) (v w : V) (m : List (K × V)) → lookup k m ≡ some w → put k v m ≡ set_at k v m
  unfolding put
  put_present k v w m h = ground (arith, h)

  pub erase-put : (k : K) (v : V) (m : List (K × V)) → erase k (put k v m) ≡ erase k m
  unfolding put
  erase-put k v m = ground (arith, erase-set_at k v m, beq_refl k)

  pub Every-put :
      (P : K → V → Type 0) (k : K) (v : V) (m : List (K × V))
      → P k v
      → Every P m
      → Every P (put k v m)
  unfolding put
  Every-put P k v m p a = ground (arith, p, a, Every-set_at P k v m p a)

  -- A map that has an entry is not empty.
  pub is_nil-lookup : (k : K) (v : V) (m : List (K × V)) → lookup k m ≡ some v → is_nil m ≡ false
  is_nil-lookup k v [] h = absurd (ground (arith, h))
  is_nil-lookup k v (p ∷ m) h = refl

  pub is_some-insert :
      (k j : K) (v : V) (m : List (K × V))
      → is_some (lookup j (insert k v m)) ≡ (e.beq k j || is_some (lookup j m))
  is_some-insert k j v m = ground (arith, e.beq_iff k j)

  pub is_some-erase :
      (k j : K) (m : List (K × V))
      → is_some (lookup j (erase k m)) ≡ (not (e.beq k j) && is_some (lookup j m))
  is_some-erase k j m = ground (arith, lookup-erase k j m)

  pub is_some-set_at :
      (k j : K) (v : V) (m : List (K × V))
      → is_some (lookup j (set_at k v m)) ≡ is_some (lookup j m)
  is_some-set_at k j v [] = refl
  is_some-set_at k j v (p ∷ m) =
      ground (arith, is_some-set_at k j v m, e.beq_iff p.0 k, e.beq_iff p.0 j)
