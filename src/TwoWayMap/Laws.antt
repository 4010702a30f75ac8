-- ===== src/TwoWayMap/Laws.antt =====
-- `TwoWayHashMap` (include/containers.hpp): insertions and removals, and whether the two maps stay
-- inverse to one another.
use tosdata_bridge.Prelude.{
  ◌≡◌, refl, ap, ◌∙◌, ◌↔◌, ◌≢◌, ◌⊎◌, inl, inr, false, none, some, List, [], ◌∷◌, arith, length,
  if◌then◌else◌, Option-cases,
}
use tosdata_bridge.Prelude.Action.{ok, err}
use tosdata_bridge.Prelude.Dict.{
  Eq, lookup, erase, keys, contains, Distinct, beq_refl, contains-keys, lookup-erase,
  lookup-erase_self, erase-Distinct, insert-Distinct, length-erase, length-insert,
}
use tosdata_bridge.TwoWayMap.{
  TwoWayMap, sizes_differ, empty_map, insert_pair, insert_all, remove_key, remove_value, size,
}

module _ {K V : Type 0} ⦃ek : Eq K⦄ ⦃ev : Eq V⦄ where
  -- Each map is the inverse of the other.
  abbrev pub Mirrors : TwoWayMap K V → Type 0
  Mirrors m = (k : K) (v : V) → (lookup k m.map1 ≡ some v) ↔ (lookup v m.map2 ≡ some k)

  pub map1-insert_pair :
      (k j : K) (v : V) (m : TwoWayMap K V)
      → lookup j (insert_pair (k, v) m).map1 ≡ (if ek.beq k j then some v else lookup j m.map1)
  unfolding insert_pair
  map1-insert_pair k j v m =
      ground (arith, lookup-erase k j m.map1, lookup-erase k k m.map1, beq_refl k)

  pub map2-insert_pair :
      (k : K) (v w : V) (m : TwoWayMap K V)
      → lookup w (insert_pair (k, v) m).map2 ≡ (if ev.beq v w then some k else lookup w m.map2)
  unfolding insert_pair
  map2-insert_pair k v w m =
      ground (arith, lookup-erase v w m.map2, lookup-erase v v m.map2, beq_refl v)

  -- The pair is new to both maps, or in both already.
  abbrev pub Compatible : K → V → TwoWayMap K V → Type 0
  Compatible k v m =
      ((lookup k m.map1 ≡ none) ⊎ (lookup k m.map1 ≡ some v))
      × ((lookup v m.map2 ≡ none) ⊎ (lookup v m.map2 ≡ some k))

  insert_pair-Mirrors :
      (k : K) (v : V) (m : TwoWayMap K V)
      → Mirrors m
      → Compatible k v m
      → Mirrors (insert_pair (k, v) m)
  insert_pair-Mirrors k v m h c j w = (
    λ e. ground (
      arith,
      map1-insert_pair k j v m,
      map2-insert_pair k v w m,
      ek.beq_iff k j,
      ev.beq_iff v w,
      h j w,
    ),
    λ e. ground (
      arith,
      map1-insert_pair k j v m,
      map2-insert_pair k v w m,
      ek.beq_iff k j,
      ev.beq_iff v w,
      h j w,
    ),
  )

  -- The value that a key of a mirrored map has can only be the new one, if the maps mirror one
  -- another after the insertion; likewise the key of a value.
  value_unique :
      (k : K) (v w : V) (m : TwoWayMap K V)
      → Mirrors m
      → Mirrors (insert_pair (k, v) m)
      → lookup k m.map1 ≡ some w
      → w ≡ v
  value_unique k v w m h n e =
      let f = (h k w).0 e in
      let g : lookup w (insert_pair (k, v) m).map2 ≡ some k =
        ground (arith, map2-insert_pair k v w m, f) in
      ground (arith, (n k w).1 g, map1-insert_pair k k v m, beq_refl k)

  key_unique :
      (k j : K) (v : V) (m : TwoWayMap K V)
      → Mirrors m
      → Mirrors (insert_pair (k, v) m)
      → lookup v m.map2 ≡ some j
      → j ≡ k
  key_unique k j v m h n e =
      let f = (h j v).1 e in
      let g : lookup j (insert_pair (k, v) m).map1 ≡ some v =
        ground (arith, map1-insert_pair k j v m, f) in
      ground (arith, (n j v).0 g, map2-insert_pair k v v m, beq_refl v)

  Compatible-insert_pair :
      (k : K) (v : V) (m : TwoWayMap K V)
      → Mirrors m
      → Mirrors (insert_pair (k, v) m)
      → Compatible k v m
  Compatible-insert_pair k v m h n = (
    elim (Option-cases (lookup k m.map1)) [
      | inl e ↦ inl e
      | inr (w, e) ↦ inr (e ∙ ap some (value_unique k v w m h n e))
    ],
    elim (Option-cases (lookup v m.map2)) [
      | inl e ↦ inl e
      | inr (j, e) ↦ inr (e ∙ ap some (key_unique k j v m h n e))
    ],
  )

  -- Insertion into maps that mirror one another leaves them so exactly if the key and the value
  -- are both new, or already paired with one another.
  pub insert_pair-Mirrors_iff :
      (k : K) (v : V) (m : TwoWayMap K V)
      → Mirrors m
      → Mirrors (insert_pair (k, v) m) ↔ Compatible k v m
  insert_pair-Mirrors_iff k v m h =
      (λ n. Compatible-insert_pair k v m h n, λ c. insert_pair-Mirrors k v m h c)

  -- A key that had another value: the old value still leads to the key, which leads to the new one.
  insert_pair-stale :
      (k : K) (v w : V) (m : TwoWayMap K V)
      → Mirrors m
      → lookup k m.map1 ≡ some w
      → w ≢ v
      → let n = insert_pair (k, v) m in
        (lookup k n.map1 ≡ some v) × (lookup v n.map2 ≡ some k) × (lookup w n.map2 ≡ some k)
  insert_pair-stale k v w m h e ne = (
    ground (arith, map1-insert_pair k k v m, beq_refl k),
    ground (arith, map2-insert_pair k v v m, beq_refl v),
    ground (arith, map2-insert_pair k v w m, ev.beq_iff v w, (h k w).0 e),
  )

  -- What the object is meant to be: two mirrored maps with distinct keys, of one size.
  pub record IsTwoWay (m : TwoWayMap K V) : Type 0 where
    pub mirrors : Mirrors m
    pub distinct1 : Distinct (keys m.map1)
    pub distinct2 : Distinct (keys m.map2)
    pub balanced : length m.map1 ≡ length m.map2

  pub insert_pair-IsTwoWay :
      (k : K) (v : V) {m : TwoWayMap K V}
      → IsTwoWay m
      → Compatible k v m
      → IsTwoWay (insert_pair (k, v) m)
  unfolding insert_pair
  insert_pair-IsTwoWay k v {m} t c = record {
    mirrors = insert_pair-Mirrors k v m t.mirrors c;
    distinct1 = insert-Distinct k v (erase k m.map1) (erase-Distinct k m.map1 t.distinct1);
    distinct2 = insert-Distinct v k (erase v m.map2) (erase-Distinct v m.map2 t.distinct2);
    balanced = ground (
      arith,
      length-insert k v (erase k m.map1) (lookup-erase_self k m.map1),
      length-insert v k (erase v m.map2) (lookup-erase_self v m.map2),
      length-erase k m.map1 t.distinct1,
      length-erase v m.map2 t.distinct2,
      t.mirrors k v,
    );
  }

  remove_pair-Mirrors :
      (k : K) (v : V) (m : TwoWayMap K V)
      → Mirrors m
      → lookup k m.map1 ≡ some v
      → Mirrors (record { map1 = erase k m.map1; map2 = erase v m.map2 })
  remove_pair-Mirrors k v m h e j w = (
    λ f. ground (
      arith,
      lookup-erase k j m.map1,
      lookup-erase v w m.map2,
      ek.beq_iff k j,
      ev.beq_iff v w,
      (h k v).0 e,
      h j w,
      h j v,
    ),
    λ f. ground (
      arith,
      lookup-erase k j m.map1,
      lookup-erase v w m.map2,
      ek.beq_iff k j,
      ev.beq_iff v w,
      (h k v).0 e,
      h j w,
      h k w,
    ),
  )

  remove_pair-IsTwoWay :
      (k : K) (v : V) (m : TwoWayMap K V)
      → IsTwoWay m
      → lookup k m.map1 ≡ some v
      → IsTwoWay (record { map1 = erase k m.map1; map2 = erase v m.map2 })
  remove_pair-IsTwoWay k v m t e = record {
    mirrors = remove_pair-Mirrors k v m t.mirrors e;
    distinct1 = erase-Distinct k m.map1 t.distinct1;
    distinct2 = erase-Distinct v m.map2 t.distinct2;
    balanced = ground (
      arith,
      length-erase k m.map1 t.distinct1,
      length-erase v m.map2 t.distinct2,
      (t.mirrors k v).0 e,
    );
  }

  remove_key-eq :
      (k : K) (v : V) (m : TwoWayMap K V)
      → lookup k m.map1 ≡ some v
      → remove_key k m ≡ record { map1 = erase k m.map1; map2 = erase v m.map2 }
  unfolding remove_key
  remove_key-eq k v m e = ground (arith, e)

  remove_value-eq :
      (k : K) (v : V) (m : TwoWayMap K V)
      → lookup v m.map2 ≡ some k
      → remove_value v m ≡ record { map1 = erase k m.map1; map2 = erase v m.map2 }
  unfolding remove_value
  remove_value-eq k v m e = ground (arith, e)

  -- Removal by a key and removal by its value are the same; they keep the maps two-way, and leave
  -- neither the key nor the value in them.
  remove_key-IsTwoWay :
      (k : K) (v : V) (m : TwoWayMap K V)
      → IsTwoWay m
      → lookup k m.map1 ≡ some v
      → IsTwoWay (remove_key k m)
        × (remove_key k m ≡ remove_value v m)
        × (lookup k (remove_key k m).map1 ≡ none)
        × (lookup v (remove_key k m).map2 ≡ none)
  remove_key-IsTwoWay k v m t e =
      rw (remove_key-eq k v m e, remove_value-eq k v m ((t.mirrors k v).0 e))
        (
          remove_pair-IsTwoWay k v m t e,
          refl,
          lookup-erase_self k m.map1,
          lookup-erase_self v m.map2,
        )

  -- `size` of a two-way map does not throw.
  pub size-IsTwoWay : (m : TwoWayMap K V) → IsTwoWay m → size m ≡ ok (length m.map1)
  unfolding size
  size-IsTwoWay m t = ground (arith, t)

  -- After an insertion that gives a key another value, `size` throws.
  pub size-insert_pair_stale :
      (k : K) (v w : V) (m : TwoWayMap K V)
      → IsTwoWay m
      → lookup k m.map1 ≡ some w
      → lookup v m.map2 ≡ none
      → size (insert_pair (k, v) m) ≡ err sizes_differ
  unfolding size insert_pair
  size-insert_pair_stale k v w m t e f = ground (
    arith,
    length-insert k v (erase k m.map1) (lookup-erase_self k m.map1),
    length-insert v k (erase v m.map2) (lookup-erase_self v m.map2),
    length-erase k m.map1 t.distinct1,
    length-erase v m.map2 t.distinct2,
    t.balanced,
  )

  -- The values of a list of pairs.
  abbrev pub values_of : List (K × V) → List V
  values_of [] = []
  values_of ((k, v) ∷ ps) = v ∷ values_of ps

  -- No pair of the list is in the maps.
  abbrev Fresh : List (K × V) → TwoWayMap K V → Type 0
  Fresh [] m = Unit
  Fresh ((k, v) ∷ ps) m = (lookup k m.map1 ≡ none) × (lookup v m.map2 ≡ none) × Fresh ps m

  Fresh-insert_pair :
      (k : K) (v : V) (ps : List (K × V)) (m : TwoWayMap K V)
      → contains k (keys ps) ≡ false
      → contains v (values_of ps) ≡ false
      → Fresh ps m
      → Fresh ps (insert_pair (k, v) m)
  Fresh-insert_pair k v [] m c d f = tt
  Fresh-insert_pair k v ((j, w) ∷ ps) m c d f = ground (
    arith,
    Fresh-insert_pair k v ps m,
    map1-insert_pair k j v m,
    map2-insert_pair k v w m,
    ek.beq_iff j k,
    ev.beq_iff w v,
    ek.beq_iff k j,
    ev.beq_iff v w,
    c,
    d,
    f,
  )

  insert_all-Fresh :
      (ps : List (K × V)) (m : TwoWayMap K V)
      → Distinct (keys ps)
      → Distinct (values_of ps)
      → Fresh ps m
      → IsTwoWay m
      → IsTwoWay (insert_all ps m)
  unfolding insert_all
  insert_all-Fresh [] m c d f t = t
  insert_all-Fresh ((k, v) ∷ ps) m c d f t =
      insert_all-Fresh ps (insert_pair (k, v) m) c.1 d.1 (Fresh-insert_pair k v ps m c.0 d.0 f.2)
        (insert_pair-IsTwoWay k v t (inl f.0, inl f.1))

  lookup-insert_all :
      (j : K) (ps : List (K × V)) (m : TwoWayMap K V)
      → Distinct (keys ps)
      → lookup j (insert_all ps m).map1
        ≡ elim (lookup j ps) [ none ↦ lookup j m.map1 | some v ↦ some v ]
  unfolding insert_all
  lookup-insert_all j [] m d = refl
  lookup-insert_all j ((k, v) ∷ ps) m d = ground (
    arith,
    lookup-insert_all j ps (insert_pair (k, v) m) d.1,
    map1-insert_pair k j v m,
    ek.beq_iff k j,
    contains-keys k ps,
    d.0,
  )

  Fresh-empty_map : (ps : List (K × V)) → Fresh ps empty_map
  Fresh-empty_map [] = tt
  Fresh-empty_map ((k, v) ∷ ps) = (refl, refl, Fresh-empty_map ps)

  empty_map-IsTwoWay : IsTwoWay empty_map
  empty_map-IsTwoWay = record {
    mirrors = λ k v. ground arith;
    distinct1 = tt;
    distinct2 = tt;
    balanced = refl;
  }

  -- A map built from pairs that share neither a key nor a value is two-way and finds what the
  -- list of the pairs has.
  pub insert_all-IsTwoWay :
      (ps : List (K × V))
      → Distinct (keys ps)
      → Distinct (values_of ps)
      → IsTwoWay (insert_all ps empty_map)
        × ((j : K) → lookup j (insert_all ps empty_map).map1 ≡ lookup j ps)
  insert_all-IsTwoWay ps c d = (
    insert_all-Fresh ps empty_map c d (Fresh-empty_map ps) empty_map-IsTwoWay,
    λ j. ground (arith, lookup-insert_all j ps empty_map c),
  )
