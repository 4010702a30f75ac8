-- ===== src/Block/Matrix.antt =====
-- `matrix_of_frame`, `map_of_frame_items` and `map_of_frame_topics`, and their versions with stamps,
-- on a valid block.
use tosdata_bridge.Prelude.{◌≡◌, true, none, some, List, arith, Option-cases, inl, inr}
use tosdata_bridge.Prelude.Int.{pos}
use tosdata_bridge.Prelude.Action.{ok}
use tosdata_bridge.Prelude.Dict.{Eq, lookup, contains, Every-lookup}
use tosdata_bridge.Stream.State.{clamp_bound}
use tosdata_bridge.Block.Interface.{StreamClass, StreamLaws}
use tosdata_bridge.Block.State.{Block}
use tosdata_bridge.Block.Invariant.{IsValid, RowOf}
use tosdata_bridge.Block.Insert.{stream_at}
use tosdata_bridge.Block.Frame.{
  map_of_frame_topics, map_of_frame_items, pair_map_of_frame_items, matrix_of_frame,
  pair_matrix_of_frame,
}
use tosdata_bridge.Block.Frames.{
  Injective, value, cell, frame_topics-ok, frame_items-lookup, frame_matrix-cell,
}

module _ {E V G D I T S : Type 0} ⦃ei : Eq I⦄ ⦃et : Eq T⦄ {c : StreamClass E V G D S}
    (laws : StreamLaws c) (element_of : T → E) where
  -- The matrix of a valid block does not throw; its cell for an item and the name of a topic is the
  -- newest value of their stream, and there is none where the block has no such stream.
  pub matrix_of_frame-cell :
      {N : Type 0} ⦃en : Eq N⦄ (name : T → N)
      → Injective name
      → (b : Block I T S) → IsValid laws element_of b
      → (m : List (I × List (N × G))) × (matrix_of_frame c name b ≡ ok m)
        × ((i : I) (t : T)
            → cell i (name t) m ≡ elim (stream_at i t b) [
              | none ↦ none
              | some s ↦ value (c.get_leave_marker (pos 0) s)
            ])
  unfolding matrix_of_frame
  matrix_of_frame-cell name inj b v =
      frame_matrix-cell laws element_of (c.get_leave_marker (pos 0)) laws.get_leave_marker-ok name
        inj b v

  -- The same of the matrix with stamps.
  pair_matrix_of_frame-cell :
      {N : Type 0} ⦃en : Eq N⦄ (name : T → N)
      → Injective name
      → (b : Block I T S) → IsValid laws element_of b
      → (m : List (I × List (N × (G × D)))) × (pair_matrix_of_frame c name b ≡ ok m)
        × ((i : I) (t : T)
            → cell i (name t) m ≡ elim (stream_at i t b) [
              | none ↦ none
              | some s ↦ value (c.both_leave_marker (pos 0) s)
            ])
  unfolding pair_matrix_of_frame
  pair_matrix_of_frame-cell name inj b v =
      frame_matrix-cell laws element_of (c.both_leave_marker (pos 0)) laws.both_leave_marker-ok name
        inj b v

  -- For a topic of a valid block, the two maps over the items do not throw; they have the newest
  -- value, and the newest value with its stamp, of the topic's stream of each item of the block.
  pub map_of_frame_items-lookup :
      (b : Block I T S) (t : T)
      → IsValid laws element_of b
      → contains t b.topic_enums ≡ true
      → (m : List (I × G)) × (p : List (I × (G × D))) × (map_of_frame_items c t b ≡ ok m)
        × (pair_map_of_frame_items c t b ≡ ok p)
        × ((i : I)
            → (lookup i m ≡ elim (stream_at i t b) [
              | none ↦ none
              | some s ↦ value (c.get_leave_marker (pos 0) s)
            ])
              × (lookup i p ≡ elim (stream_at i t b) [
                | none ↦ none
                | some s ↦ value (c.both_leave_marker (pos 0) s)
              ]))
  unfolding map_of_frame_items pair_map_of_frame_items
  map_of_frame_items-lookup b t v h =
      let (m, e, f) =
        frame_items-lookup laws element_of (c.get_leave_marker (pos 0)) laws.get_leave_marker-ok b t
          v h in
      let (p, g, k) =
        frame_items-lookup laws element_of (c.both_leave_marker (pos 0)) laws.both_leave_marker-ok b
          t v h in
      (m, p, e, g, λ i. (f i, k i))

  -- For an item of a valid block, the map over the topics does not throw, and has at the name of
  -- each topic of the block the newest value of their stream.
  map_of_frame_topics-lookup :
      {N : Type 0} ⦃en : Eq N⦄ (name : T → N)
      → Injective name
      → (b : Block I T S) (i : I) → IsValid laws element_of b
      → contains i b.item_names ≡ true
      → (m : List (N × G)) × (map_of_frame_topics c name i b ≡ ok m)
        × ((t : T)
            → lookup (name t) m ≡ elim (stream_at i t b) [
              | none ↦ none
              | some s ↦ value (c.get_leave_marker (pos 0) s)
            ])
  unfolding map_of_frame_topics
  map_of_frame_topics-lookup name inj b i v h = elim (Option-cases (lookup i b.block)) [
    | inl g ↦ absurd (ground (arith, v.items i, h, g))
    | inr (row, g) ↦
        let (m, e, f) =
          frame_topics-ok laws element_of name inj (c.get_leave_marker (pos 0))
            laws.get_leave_marker-ok b.topic_enums b.datetime (clamp_bound b.block_sz) row
            (Every-lookup (RowOf laws element_of b) i row b.block v.rows g) in
        (m, ground (arith, g, e), λ t. ground (arith, g, f t))
  ]
