-- ===== src/TwoWayMap/Tests.antt =====
-- The two-way map on small inputs.
use tosdata_bridge.Prelude.{ℕ, subst, ◌≡◌, ◌↔◌, inl, refl, [], ◌∷◌, arith}
use tosdata_bridge.Prelude.Action.{err, ok}
use tosdata_bridge.Prelude.Dict.{nat_eq}
use tosdata_bridge.TwoWayMap.{TwoWayMap, sizes_differ, insert_pair, insert_all, empty_map, size}
use tosdata_bridge.TwoWayMap.Laws.{
  Mirrors, Compatible, IsTwoWay, insert_pair-Mirrors_iff, insert_pair-IsTwoWay, insert_all-IsTwoWay,
  size-IsTwoWay, size-insert_pair_stale,
}

abbrev pair_map : TwoWayMap ℕ ℕ
pair_map = insert_all ((1, 10) ∷ (2, 20) ∷ []) empty_map

abbrev two : TwoWayMap ℕ ℕ
two = record { map1 = (2, 20) ∷ (1, 10) ∷ []; map2 = (20, 2) ∷ (10, 1) ∷ [] }

pair_map-two : pair_map ≡ two
unfolding insert_all insert_pair
pair_map-two = refl

two-IsTwoWay : IsTwoWay two
two-IsTwoWay =
    subst IsTwoWay pair_map-two
      (insert_all-IsTwoWay ((1, 10) ∷ (2, 20) ∷ []) (ground arith) (ground arith)).0

insert_pair-Mirrors_iff_example : Mirrors (insert_pair (3, 20) two) ↔ Compatible 3 20 two
insert_pair-Mirrors_iff_example = insert_pair-Mirrors_iff 3 20 two two-IsTwoWay.mirrors

insert_pair-IsTwoWay_example : IsTwoWay (insert_pair (3, 30) two)
insert_pair-IsTwoWay_example = insert_pair-IsTwoWay 3 30 two-IsTwoWay (inl refl, inl refl)

size-IsTwoWay_example : size two ≡ ok 2
size-IsTwoWay_example = size-IsTwoWay two two-IsTwoWay

size-insert_pair_stale_example : size (insert_pair (1, 30) two) ≡ err sizes_differ
size-insert_pair_stale_example = size-insert_pair_stale 1 30 10 two two-IsTwoWay refl refl
