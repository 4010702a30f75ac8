-- ===== src/Block/Lookup.antt =====
-- `raw_stream_ptr` (src/raw_data_block.tpp) of a valid block.
use tosdata_bridge.Prelude.{◌≡◌, ◌&&◌, none, some, arith, Option-cases, inl, inr}
use tosdata_bridge.Prelude.Action.{ok, err}
use tosdata_bridge.Prelude.Dict.{Eq, lookup, is_some, Every-lookup}
use tosdata_bridge.Block.Interface.{StreamClass, StreamLaws}
use tosdata_bridge.Block.State.{Block, block_error}
use tosdata_bridge.Block.Invariant.{IsValid, RowOf}
use tosdata_bridge.Block.Insert.{stream_at}
use tosdata_bridge.Block.Frame.{raw_stream_ptr, has_item, has_topic}

module _ {E V G D I T S : Type 0} ⦃ei : Eq I⦄ ⦃et : Eq T⦄ {c : StreamClass E V G D S}
    (laws : StreamLaws c) (element_of : T → E) where
  -- `raw_stream_ptr` of a valid block returns the stream of the item and the topic exactly if
  -- `has_item` and `has_topic` are both true; else it throws.
  pub raw_stream_ptr-has_item :
      (i : I) (t : T) (b : Block I T S)
      → IsValid laws element_of b
      → (raw_stream_ptr i t b ≡ elim (stream_at i t b) [ none ↦ err block_error | some s ↦ ok s ])
        × (is_some (stream_at i t b) ≡ (has_item i b && has_topic t b))
  unfolding raw_stream_ptr has_item has_topic
  raw_stream_ptr-has_item i t b v = elim (Option-cases (lookup i b.block)) [
    | inl h ↦ (ground (arith, h), ground (arith, h, v.items i))
    | inr (row, h) ↦
        let r = Every-lookup (RowOf laws element_of b) i row b.block v.rows h in
        (ground (arith, h), ground (arith, h, v.items i, r.topics t))
  ]
