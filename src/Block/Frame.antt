-- ===== src/Block/Frame.antt =====
-- src/raw_data_block.tpp: the frames of a block, maps of the newest value of each stream, and the
-- other reads. They leave the block and its markers as they are, so they only return.
use tosdata_bridge.Prelude.{Bool, none, some, List, [], ◌∷◌}
use tosdata_bridge.Prelude.Int.{pos}
use tosdata_bridge.Prelude.Action.{Result, ok, err}
use tosdata_bridge.Prelude.Dict.{Eq, lookup, insert, contains}
use tosdata_bridge.Stream.State.{StreamError}
use tosdata_bridge.Block.Interface.{StreamClass}
use tosdata_bridge.Block.State.{Block, BlockError, block_error, wrap}

-- A loop that reads every entry and inserts the result under a key, until a read throws.
unfoldable pub fill :
    {K X N W : Type 0}
    → ⦃en : Eq N⦄ → (K → N)
    → (X → Result BlockError W)
    → List (K × X)
    → List (N × W)
    → Result BlockError (List (N × W))
fill key read [] acc = ok acc
fill key read ((k, x) ∷ xs) acc = elim (read x) [
  | ok w ↦ fill key read xs (insert (key k) w acc)
  | err e ↦ err e
]

-- The loops of the frames, over a read of a stream; `name` is the text of a topic.
unfoldable pub frame_topics :
    {T S N W : Type 0}
    → ⦃en : Eq N⦄ → (T → N)
    → (S → Result StreamError W)
    → List (T × S)
    → Result BlockError (List (N × W))
unfolding fill wrap
frame_topics name read row = fill name (λ s. wrap (read s)) row []

unfoldable pub read_topic :
    {T S W : Type 0}
    → ⦃et : Eq T⦄ → (S → Result StreamError W)
    → T
    → List (T × S)
    → Result BlockError W
unfolding wrap
read_topic read topic row = elim (lookup topic row) [
  | none ↦ err block_error
  | some s ↦ wrap (read s)
]

unfoldable pub frame_items :
    {I T S W : Type 0}
    → ⦃ei : Eq I⦄ → ⦃et : Eq T⦄ → (S → Result StreamError W)
    → T
    → List (I × List (T × S))
    → Result BlockError (List (I × W))
unfolding fill read_topic
frame_items read topic rows = fill (λ i. i) (read_topic read topic) rows []

unfoldable pub frame_matrix :
    {I T S N W : Type 0}
    → ⦃ei : Eq I⦄ → ⦃en : Eq N⦄ → (T → N)
    → (S → Result StreamError W)
    → List (I × List (T × S))
    → Result BlockError (List (I × List (N × W)))
unfolding fill frame_topics
frame_matrix name read rows = fill (λ i. i) (frame_topics name read) rows []

module _ {I T S : Type 0} ⦃ei : Eq I⦄ ⦃et : Eq T⦄ where
  -- `raw_stream_ptr`.
  unfoldable pub raw_stream_ptr : I → T → Block I T S → Result BlockError S
  raw_stream_ptr item topic b = elim (lookup item b.block) [
    | none ↦ err block_error
    | some row ↦ elim (lookup topic row) [ none ↦ err block_error | some s ↦ ok s ]
  ]

  -- `has_item` and `has_topic`.
  unfoldable pub has_item : I → Block I T S → Bool
  has_item item b = contains item b.item_names

  unfoldable pub has_topic : T → Block I T S → Bool
  has_topic topic b = contains topic b.topic_enums

module _ {E V G D I T S N : Type 0} ⦃ei : Eq I⦄ ⦃en : Eq N⦄ (c : StreamClass E V G D S)
    (name : T → N) where
  unfoldable pub map_of_frame_topics : I → Block I T S → Result BlockError (List (N × G))
  unfolding frame_topics
  map_of_frame_topics item b = elim (lookup item b.block) [
    | none ↦ err block_error
    | some row ↦ frame_topics name (c.get_leave_marker (pos 0)) row
  ]

  unfoldable pub pair_map_of_frame_topics : I → Block I T S → Result BlockError (List (N × (G × D)))
  unfolding frame_topics
  pair_map_of_frame_topics item b = elim (lookup item b.block) [
    | none ↦ err block_error
    | some row ↦ frame_topics name (c.both_leave_marker (pos 0)) row
  ]

  unfoldable pub matrix_of_frame : Block I T S → Result BlockError (List (I × List (N × G)))
  unfolding frame_matrix
  matrix_of_frame b = frame_matrix name (c.get_leave_marker (pos 0)) b.block

  unfoldable pub pair_matrix_of_frame :
      Block I T S → Result BlockError (List (I × List (N × (G × D))))
  unfolding frame_matrix
  pair_matrix_of_frame b = frame_matrix name (c.both_leave_marker (pos 0)) b.block

module _ {E V G D I T S : Type 0} ⦃ei : Eq I⦄ ⦃et : Eq T⦄ (c : StreamClass E V G D S) where
  unfoldable pub map_of_frame_items : T → Block I T S → Result BlockError (List (I × G))
  unfolding frame_items
  map_of_frame_items topic b = frame_items (c.get_leave_marker (pos 0)) topic b.block

  unfoldable pub pair_map_of_frame_items : T → Block I T S → Result BlockError (List (I × (G × D)))
  unfolding frame_items
  pair_map_of_frame_items topic b = frame_items (c.both_leave_marker (pos 0)) topic b.block
