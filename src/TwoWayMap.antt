-- ===== src/TwoWayMap.antt =====
-- include/containers.hpp: `TwoWayHashMap`, two hash maps that mirror one another. The thread-safe
-- specialisation calls the same methods under one lock, so its calls are a sequence of these.
pub mod Laws
mod Tests
use tosdata_bridge.Prelude.{
  ℕ, Bool, true, false, Option, none, some, List, [], ◌∷◌, ◌&&◌, length, is_nil, ◌==◌,
  if◌then◌else◌,
}
use tosdata_bridge.Prelude.Action.{Result, ok, err}
use tosdata_bridge.Prelude.Dict.{Eq, lookup, insert, erase}

-- The one exception: `std::out_of_range` of `size`.
pub data MapError : Type 0 where
  sizes_differ : MapError

pub record TwoWayMap (K V : Type 0) : Type 0 where
  pub map1 : List (K × V)
  pub map2 : List (V × K)

abbrev pub empty_map : {K V : Type 0} → TwoWayMap K V
empty_map = record { map1 = []; map2 = [] }

module _ {K V : Type 0} ⦃ek : Eq K⦄ ⦃ev : Eq V⦄ where
  -- `_insert`.
  unfoldable pub insert_pair : K × V → TwoWayMap K V → TwoWayMap K V
  insert_pair (k, v) m = record {
    map1 = insert k v (erase k m.map1);
    map2 = insert v k (erase v m.map2);
  }

  -- The constructors and `insert` of an array or of a map.
  pub insert_all : List (K × V) → TwoWayMap K V → TwoWayMap K V
  insert_all [] m = m
  insert_all (p ∷ ps) m = insert_all ps (insert_pair p m)

  -- `remove(T1)` and `remove(T2)`: of a key that is not there, nothing.
  unfoldable pub remove_key : K → TwoWayMap K V → TwoWayMap K V
  remove_key k m = elim (lookup k m.map1) [
    | none ↦ m
    | some v ↦ record { map1 = erase k m.map1; map2 = erase v m.map2 }
  ]

  pub remove_value : V → TwoWayMap K V → TwoWayMap K V
  remove_value v m = elim (lookup v m.map2) [
    | none ↦ m
    | some k ↦ record { map1 = erase k m.map1; map2 = erase v m.map2 }
  ]

  -- `operator[]`, with the null value for a key that is not there.
  unfoldable pub value_at : V → K → TwoWayMap K V → V
  value_at null k m = elim (lookup k m.map1) [ none ↦ null | some v ↦ v ]

  unfoldable pub key_at : K → V → TwoWayMap K V → K
  key_at null v m = elim (lookup v m.map2) [ none ↦ null | some k ↦ k ]

module _ {K V : Type 0} where
  pub size : TwoWayMap K V → Result MapError ℕ
  size m = let s = length m.map1 in if s == length m.map2 then ok s else err sizes_differ

  pub is_empty : TwoWayMap K V → Bool
  is_empty m = is_nil m.map1 && is_nil m.map2
