-- ===== src/Block/Limits.antt =====
-- The limit on the number of blocks: `CreateBlock` on every branch, and the counts after any
-- creations, destructions and changes of the limit.
use tosdata_bridge.Prelude.{
  ℕ, ◌%◌, ◌^◌, ◌≡◌, refl, ◌≤◌, ◌<◌, Bool, none, some, List, [], ◌∷◌, arith, length, get_elem?,
  remove_at, length-remove_at, Option-cases, inl, inr,
}
use tosdata_bridge.Prelude.Action.{Result, ok, err}
use tosdata_bridge.Prelude.Dict.{Eq}
use tosdata_bridge.Block.Interface.{StreamClass}
use tosdata_bridge.Block.State.{Block, BlockError}
use tosdata_bridge.Block.Limit.{
  Registry, new_registry, count_up, count_down, set_max_block_count, create_block,
  create_empty_block,
}

-- The calls of a client of the class, with their arguments; a block is destroyed by its place.
pub data ClassCall (I T : Type 0) : Type 0 where
  creates : List I → List T → ℕ → Bool → ClassCall I T
  creates_empty : ℕ → Bool → ClassCall I T
  destroys : ℕ → ClassCall I T
  limits : ℕ → ClassCall I T

-- The static members, and the blocks that exist.
pub record Class (B : Type 0) : Type 0 where
  pub registry : Registry
  pub blocks : List B

-- A creation that does not throw gives one more block.
abbrev keep : {B : Type 0} → List B → Result BlockError B × Registry → Class B
keep bs (ok b, r) = record { registry = r; blocks = b ∷ bs }
keep bs (err e, r) = record { registry = r; blocks = bs }

module _ {E V G D I T S : Type 0} ⦃ei : Eq I⦄ ⦃et : Eq T⦄ (c : StreamClass E V G D S)
    (element_of : T → E) where
  unfoldable pub class_step : ClassCall I T → Class (Block I T S) → Class (Block I T S)
  unfolding create_block create_empty_block count_down set_max_block_count
  class_step (creates items topics sz d) k =
      keep k.blocks (create_block c element_of items topics sz d k.registry)
  class_step (creates_empty sz d) k =
      keep k.blocks (create_empty_block c element_of sz d k.registry)
  class_step (destroys i) k = elim (get_elem? k.blocks i) [
    | none ↦ k
    | some b ↦ record { registry = count_down k.registry; blocks = remove_at i k.blocks }
  ]
  class_step (limits m) k = record k { registry = (set_max_block_count (m % 2 ^ 32) k.registry).1 }

  unfoldable pub class_run : List (ClassCall I T) → Class (Block I T S) → Class (Block I T S)
  unfolding class_step
  class_run [] k = k
  class_run (x ∷ xs) k = class_run xs (class_step x k)

  -- The count is that of the blocks that exist, and within the limit, which is a `size_type`.
  pub record IsCounted (k : Class (Block I T S)) : Type 0 where
    pub counted : k.registry.block_count ≡ length k.blocks
    pub within : k.registry.block_count ≤ k.registry.max_block_count
    pub sized : k.registry.max_block_count < 2 ^ 32

  class_step-IsCounted :
      (x : ClassCall I T) (k : Class (Block I T S)) → IsCounted k → IsCounted (class_step x k)
  unfolding class_step create_block create_empty_block count_up count_down set_max_block_count
  class_step-IsCounted (creates items topics sz d) k v = ground (arith, v)
  class_step-IsCounted (creates_empty sz d) k v = ground (arith, v)
  class_step-IsCounted (destroys i) k v = elim (Option-cases (get_elem? k.blocks i)) [
    | inl e ↦ ground (arith, v, e)
    | inr (b, e) ↦ ground (arith, v, e, length-remove_at i k.blocks b e)
  ]
  class_step-IsCounted (limits m) k v = ground (arith, v)

  class_run-IsCounted :
      (xs : List (ClassCall I T)) (k : Class (Block I T S))
      → IsCounted k
      → IsCounted (class_run xs k)
  unfolding class_run
  class_run-IsCounted [] k v = v
  class_run-IsCounted (x ∷ xs) k v =
      class_run-IsCounted xs (class_step x k) (class_step-IsCounted x k v)

  -- From the start of the process, after any creations, destructions and changes of the limit, in
  -- any order and whether or not they throw, `_block_count_` is the number of the blocks that exist
  -- and is within the limit; it never wraps around.
  pub class_run-new_registry :
      (xs : List (ClassCall I T))
      → IsCounted (class_run xs (record { registry = new_registry; blocks = [] }))
  class_run-new_registry xs =
      class_run-IsCounted xs (record { registry = new_registry; blocks = [] })
        (record { counted = refl; within = omega arith; sized = omega arith })
