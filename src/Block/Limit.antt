-- ===== src/Block/Limit.antt =====
-- include/raw_data_block.hpp and src/raw_data_block.tpp: `CreateBlock` and the limit on the number of
-- blocks, which stands in static members.
use tosdata_bridge.Prelude.{ℕ, ◌+◌, ◌-◌, ◌%◌, ◌^◌, Bool, List, [], leb, is_nil, if◌then◌else◌}
use tosdata_bridge.Prelude.Action.{Result, ok, err}
use tosdata_bridge.Prelude.Dict.{Eq}
use tosdata_bridge.Block.Interface.{StreamClass}
use tosdata_bridge.Block.State.{Block, BlockError, block_error, limit_error, new_block}

-- The static members `_block_count_` and `_max_block_count_`.
pub record Registry : Type 0 where
  pub block_count : ℕ
  pub max_block_count : ℕ

-- With `MAX_BLOCK_COUNT`.
abbrev pub new_registry : Registry
new_registry = record { block_count = 0; max_block_count = 10 }

-- The counts are of the type `size_type`, of 32 bits.
unfoldable pub count_up : Registry → Registry
count_up r = record r { block_count = (r.block_count + 1) % 2 ^ 32 }

-- The destructor.
unfoldable pub count_down : Registry → Registry
count_down r = record r { block_count = (r.block_count + (2 ^ 32 - 1)) % 2 ^ 32 }

-- `max_block_count(m)`, which returns the limit.
unfoldable pub set_max_block_count : ℕ → Registry → ℕ × Registry
set_max_block_count m r =
    if leb r.block_count m then (m, record r { max_block_count = m }) else (r.max_block_count, r)

module _ {E V G D I T S : Type 0} ⦃ei : Eq I⦄ ⦃et : Eq T⦄ (c : StreamClass E V G D S)
    (element_of : T → E) where
  unfoldable pub create_block :
      List I → List T → ℕ → Bool → Registry → Result BlockError (Block I T S) × Registry
  unfolding count_up new_block
  create_block items topics sz datetime r =
      if is_nil items
      then (err block_error, r)
      else if is_nil topics
      then (err block_error, r)
      else if leb r.max_block_count r.block_count
      then (err (limit_error r.max_block_count), r)
      else (ok (new_block c element_of items topics sz datetime), count_up r)

  unfoldable pub create_empty_block :
      ℕ → Bool → Registry → Result BlockError (Block I T S) × Registry
  unfolding count_up new_block
  create_empty_block sz datetime r =
      if leb r.max_block_count r.block_count
      then (err (limit_error r.max_block_count), r)
      else (ok (new_block c element_of [] [] sz datetime), count_up r)
