-- ===== src/Block/Reachable.antt =====
-- The states that a block can reach: from its constructor, by any calls in any order, of which its
-- mutex makes a sequence.
use tosdata_bridge.Prelude.{ℕ, Bool, List, [], ◌∷◌}
use tosdata_bridge.Prelude.Dict.{Eq}
use tosdata_bridge.Block.Interface.{StreamClass, StreamLaws}
use tosdata_bridge.Block.State.{
  Block, new_block, set_block_size, insert_data, add_item, add_topic, remove_item, remove_topic,
}
use tosdata_bridge.Block.Invariant.{
  IsValid, new_block-IsValid, set_block_size-IsValid, add_item-IsValid, add_topic-IsValid,
}
use tosdata_bridge.Block.Removal.{remove_item-IsValid, remove_topic-IsValid}
use tosdata_bridge.Block.Insert.{insert_data-IsValid}

-- The calls that change a block, with their arguments.
pub data Call (I T V D : Type 0) : Type 0 where
  sizes : ℕ → Call I T V D
  inserts : Bool → T → I → V → D → Call I T V D
  adds_item : I → Call I T V D
  adds_topic : T → Call I T V D
  removes_item : I → Call I T V D
  removes_topic : T → Call I T V D

module _ {E V G D I T S : Type 0} ⦃ei : Eq I⦄ ⦃et : Eq T⦄ (c : StreamClass E V G D S)
    (element_of : T → E) where
  -- The block after a call, also if it throws.
  unfoldable pub step : Call I T V D → Block I T S → Block I T S
  step (sizes n) b = (set_block_size c n b).1
  step (inserts got t i v d) b = (insert_data c got t i v d b).1
  step (adds_item i) b = add_item c element_of i b
  step (adds_topic t) b = add_topic c element_of t b
  step (removes_item i) b = (remove_item i b).1
  step (removes_topic t) b = (remove_topic t b).1

  unfoldable pub run : List (Call I T V D) → Block I T S → Block I T S
  unfolding step
  run [] b = b
  run (x ∷ xs) b = run xs (step x b)

module _ {E V G D I T S : Type 0} ⦃ei : Eq I⦄ ⦃et : Eq T⦄ {c : StreamClass E V G D S}
    (laws : StreamLaws c) (element_of : T → E) where
  step-IsValid :
      (x : Call I T V D) (b : Block I T S)
      → IsValid laws element_of b
      → IsValid laws element_of (step c element_of x b)
  unfolding step
  step-IsValid (sizes n) b v = set_block_size-IsValid laws element_of n b v
  step-IsValid (inserts got t i x d) b v = insert_data-IsValid laws element_of got t i x d b v
  step-IsValid (adds_item i) b v = add_item-IsValid laws element_of i b v
  step-IsValid (adds_topic t) b v = add_topic-IsValid laws element_of t b v
  step-IsValid (removes_item i) b v = (remove_item-IsValid laws element_of i b v).1
  step-IsValid (removes_topic t) b v = (remove_topic-IsValid laws element_of t b v).1

  run-IsValid :
      (xs : List (Call I T V D)) (b : Block I T S)
      → IsValid laws element_of b
      → IsValid laws element_of (run c element_of xs b)
  unfolding run
  run-IsValid [] b v = v
  run-IsValid (x ∷ xs) b v = run-IsValid xs (step c element_of x b) (step-IsValid x b v)

  -- After any calls, a block has a row for each of its items and no other, each row a stream for
  -- each topic of the block and no other, and each stream the type that its topic has, stamps if
  -- the block has them, and the bound of the block.
  pub run-new_block-IsValid :
      (xs : List (Call I T V D)) (items : List I) (topics : List T) (sz : ℕ) (d : Bool)
      → IsValid laws element_of (run c element_of xs (new_block c element_of items topics sz d))
  run-new_block-IsValid xs items topics sz d =
      run-IsValid xs (new_block c element_of items topics sz d)
        (new_block-IsValid laws element_of items topics sz d)
