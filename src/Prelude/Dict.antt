-- ===== src/Prelude/Dict.antt =====
-- Maps as association lists and sets as lists without repetition, over keys with an equality test.
use tosdata_bridge.Prelude.{
  ℕ, suc, length, not, find_first, ◌≡◌, refl, ◌↔◌, Bool, true, false, ◌&&◌, Option, none, some,
  List, [], ◌∷◌, map, arith, ◌==◌, ==_iff, if◌then◌else◌,
}

pub record Eq {ℓ} (A : Type ℓ) : Type ℓ where
  pub beq : A → A → Bool
  pub beq_iff : (a b : A) → (beq a b ≡ true) ↔ (a ≡ b)

instance abbrev pub nat_eq : Eq ℕ
nat_eq = record { beq = ◌==◌; beq_iff = ==_iff }

abbrev pub is_some {ℓ} : {A : Type ℓ} → Option A → Bool
is_some none = false
is_some (some a) = true

module _ {ℓ} {K : Type ℓ} ⦃e : Eq K⦄ where
  pub beq_refl : (k : K) → e.beq k k ≡ true
  beq_refl k = (e.beq_iff k k).1 refl

  -- `find` on a set.
  abbrev pub contains : K → List K → Bool
  contains k [] = false
  contains k (j ∷ s) = if e.beq j k then true else contains k s

  -- `erase` on a set.
  abbrev pub remove : K → List K → List K
  remove k [] = []
  remove k (j ∷ s) = if e.beq j k then remove k s else j ∷ remove k s

  pub contains-remove :
      (k j : K) (s : List K) → contains j (remove k s) ≡ (if e.beq k j then false else contains j s)
  contains-remove k j [] = ground arith
  contains-remove k j (i ∷ s) =
      ground (arith, contains-remove k j s, e.beq_iff i k, e.beq_iff i j, e.beq_iff k j)

  abbrev pub Distinct : List K → Type 0
  Distinct [] = Unit
  Distinct (k ∷ s) = (contains k s ≡ false) × Distinct s

  pub remove-Distinct : (k : K) (s : List K) → Distinct s → Distinct (remove k s)
  remove-Distinct k [] d = tt
  remove-Distinct k (j ∷ s) d = ground (arith, remove-Distinct k s d.1, contains-remove k j s)

module _ {ℓ κ} {K : Type ℓ} ⦃e : Eq K⦄ {V : Type κ} where
  abbrev pub lookup : K → List (K × V) → Option V
  lookup k [] = none
  lookup k ((j, v) ∷ m) = if e.beq j k then some v else lookup k m

  -- `erase`
  abbrev pub erase : K → List (K × V) → List (K × V)
  erase k [] = []
  erase k ((j, v) ∷ m) = if e.beq j k then erase k m else (j, v) ∷ erase k m

  -- The library's `insert` on a map leaves an entry that is there as it is.
  abbrev pub insert : K → V → List (K × V) → List (K × V)
  insert k v m = elim (lookup k m) [ none ↦ (k, v) ∷ m | some w ↦ m ]

  -- A write through the value that a key has; nothing where it has none.
  abbrev pub set_at : K → V → List (K × V) → List (K × V)
  set_at k v [] = []
  set_at k v ((j, w) ∷ m) = if e.beq j k then (j, v) ∷ m else (j, w) ∷ set_at k v m

  abbrev pub keys : List (K × V) → List K
  keys = map λ p. p.0

  pub lookup-erase :
      (k j : K) (m : List (K × V)) → lookup j (erase k m) ≡ (if e.beq k j then none else lookup j m)
  lookup-erase k j [] = ground arith
  lookup-erase k j (p ∷ m) =
      ground (arith, lookup-erase k j m, e.beq_iff p.0 k, e.beq_iff p.0 j, e.beq_iff k j)

  pub lookup-erase_self : (k : K) (m : List (K × V)) → lookup k (erase k m) ≡ none
  lookup-erase_self k m = ground (arith, lookup-erase k k m, beq_refl k)

  pub lookup-insert :
      (k j : K) (v : V) (m : List (K × V))
      → lookup k m ≡ none
      → lookup j (insert k v m) ≡ (if e.beq k j then some v else lookup j m)
  lookup-insert k j v m h = ground arith

  pub lookup-set_at :
      (k j : K) (v : V) (m : List (K × V))
      → lookup j (set_at k v m) ≡ (if e.beq k j && is_some (lookup k m) then some v else lookup j m)
  lookup-set_at k j v [] = ground arith
  lookup-set_at k j v (p ∷ m) =
      ground (arith, lookup-set_at k j v m, e.beq_iff p.0 k, e.beq_iff p.0 j, e.beq_iff k j)

  pub contains-keys : (k : K) (m : List (K × V)) → contains k (keys m) ≡ is_some (lookup k m)
  contains-keys k [] = refl
  contains-keys k (p ∷ m) = ground (arith, contains-keys k m)

  pub keys-erase : (k : K) (m : List (K × V)) → keys (erase k m) ≡ remove k (keys m)
  keys-erase k [] = refl
  keys-erase k (p ∷ m) = ground (arith, keys-erase k m)

  pub keys-set_at : (k : K) (v : V) (m : List (K × V)) → keys (set_at k v m) ≡ keys m
  keys-set_at k v [] = refl
  keys-set_at k v (p ∷ m) = ground (arith, keys-set_at k v m)

  pub erase-Distinct : (k : K) (m : List (K × V)) → Distinct (keys m) → Distinct (keys (erase k m))
  erase-Distinct k m d = rw keys-erase (remove-Distinct k (keys m) d)

  -- A key of a map with distinct keys has one entry.
  pub length-erase :
      (k : K) (m : List (K × V))
      → Distinct (keys m)
      → length m ≡ (if is_some (lookup k m) then suc (length (erase k m)) else length (erase k m))
  length-erase k [] d = refl
  length-erase k (p ∷ m) d =
      ground (arith, length-erase k m d.1, contains-keys p.0 m, e.beq_iff p.0 k)

  pub insert-Distinct :
      (k : K) (v : V) (m : List (K × V)) → Distinct (keys m) → Distinct (keys (insert k v m))
  insert-Distinct k v m d = ground (arith, contains-keys k m)

  pub length-insert :
      (k : K) (v : V) (m : List (K × V))
      → lookup k m ≡ none
      → length (insert k v m) ≡ suc (length m)
  length-insert k v m h = ground arith

module _ {ℓ κ} {K : Type ℓ} ⦃e : Eq K⦄ {V : Type κ} where
  -- What holds of every entry.
  abbrev pub Every : (K → V → Type 0) → List (K × V) → Type 0
  Every P [] = Unit
  Every P ((k, v) ∷ m) = P k v × Every P m

  pub Every-lookup :
      (P : K → V → Type 0) (k : K) (v : V) (m : List (K × V))
      → Every P m
      → lookup k m ≡ some v
      → P k v
  Every-lookup P k v [] a h = absurd (ground (arith, h))
  Every-lookup P k v ((j, w) ∷ m) a h =
      ground (arith, a.0, Every-lookup P k v m a.1, e.beq_iff j k, h)

  pub Every-erase :
      (P : K → V → Type 0) (k : K) (m : List (K × V)) → Every P m → Every P (erase k m)
  Every-erase P k [] a = tt
  Every-erase P k ((j, w) ∷ m) a = ground (arith, a.0, Every-erase P k m a.1)

  pub Every-insert :
      (P : K → V → Type 0) (k : K) (v : V) (m : List (K × V))
      → P k v
      → Every P m
      → Every P (insert k v m)
  Every-insert P k v m p a = ground (arith, p, a)

  pub Every-set_at :
      (P : K → V → Type 0) (k : K) (v : V) (m : List (K × V))
      → P k v
      → Every P m
      → Every P (set_at k v m)
  Every-set_at P k v [] p a = tt
  Every-set_at P k v ((j, w) ∷ m) p a =
      ground (arith, p, a.0, a.1, Every-set_at P k v m p a.1, e.beq_iff j k)

  -- A change of every value.
  abbrev pub map_values : {W : Type κ} → (V → W) → List (K × V) → List (K × W)
  map_values f [] = []
  map_values f ((k, v) ∷ m) = (k, f v) ∷ map_values f m

  pub lookup-map_values :
      {W : Type κ} (f : V → W) (k : K) (m : List (K × V))
      → lookup k (map_values f m) ≡ elim (lookup k m) [ none ↦ none | some v ↦ some (f v) ]
  lookup-map_values f k [] = refl
  lookup-map_values f k ((j, v) ∷ m) = ground (arith, lookup-map_values f k m)

  pub Every-map_values :
      (P Q : K → V → Type 0) (f : V → V)
      → ((k : K) (v : V) → P k v → Q k (f v))
      → (m : List (K × V)) → Every P m
      → Every Q (map_values f m)
  Every-map_values P Q f h [] a = tt
  Every-map_values P Q f h ((k, v) ∷ m) a = (h k v a.0, Every-map_values P Q f h m a.1)

  pub Every-weaken :
      (P Q : K → V → Type 0)
      → ((k : K) (v : V) → P k v → Q k v)
      → (m : List (K × V)) → Every P m
      → Every Q m
  Every-weaken P Q h [] a = tt
  Every-weaken P Q h ((k, v) ∷ m) a = (h k v a.0, Every-weaken P Q h m a.1)

module _ {ℓ} {K : Type ℓ} ⦃e : Eq K⦄ where
  pub contains-find_first :
      (p : K → Bool) (k : K) (ks : List K) → find_first p ks ≡ some k → contains k ks ≡ true
  contains-find_first p k [] h = absurd (ground (arith, h))
  contains-find_first p k (j ∷ ks) h = ground (arith, contains-find_first p k ks, e.beq_iff j k, h)

  -- The pairs of the keys with their values.
  abbrev pub tag : {V : Type ℓ} → (K → V) → List K → List (K × V)
  tag f [] = []
  tag f (k ∷ ks) = (k, f k) ∷ tag f ks

  pub lookup-tag :
      {V : Type ℓ} (f : K → V) (k : K) (ks : List K)
      → contains k ks ≡ true
      → lookup k (tag f ks) ≡ some (f k)
  lookup-tag f k [] h = absurd (ground (arith, h))
  lookup-tag f k (j ∷ ks) h = ground (arith, h, lookup-tag f k ks, e.beq_iff j k)

  -- The Boolean test of a set that is kept as a list.
  abbrev pub distinct : List K → Bool
  distinct [] = true
  distinct (k ∷ ks) = not (contains k ks) && distinct ks

  pub distinct_lem : (ks : List K) → distinct ks ≡ true → Distinct ks
  distinct_lem [] h = tt
  distinct_lem (k ∷ ks) h = ground (arith, h, distinct_lem ks)
