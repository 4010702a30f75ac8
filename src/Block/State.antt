-- ===== src/Block/State.antt =====
-- include/raw_data_block.hpp and src/raw_data_block.tpp: the state of a `RawDataBlock`, its
-- constructors, and the calls that change it. Its mutex makes the calls a sequence.
use tosdata_bridge.Prelude.{ℕ, ◌^◌, Bool, none, some, List, [], ◌∷◌, min, if◌then◌else◌}
use tosdata_bridge.Prelude.Action.{Result, ok, err}
use tosdata_bridge.Prelude.Dict.{Eq, lookup, insert, erase, set_at, contains, remove, map_values}
use tosdata_bridge.Stream.State.{StreamError, std_out_of_range}
use tosdata_bridge.Block.Interface.{StreamClass}

-- `TOSDB_DataBlockError` and its derived classes, and a `std::out_of_range` that is not caught.
pub data BlockError : Type 0 where
  block_error : BlockError
  limit_error : (limit : ℕ) → BlockError
  stream_error : StreamError → BlockError
  uncaught_error : BlockError

-- The fields of `RawDataBlock`. The maps own their rows and streams, and hold no null pointer:
-- each pointer is made by `new`, and is reset only just before its entry is erased.
pub record Block (I T S : Type 0) : Type 0 where
  pub block : List (I × List (T × S))
  pub block_sz : ℕ
  pub item_names : List I
  pub topic_enums : List T
  pub datetime : Bool

-- `TOSDB_MAX_BLOCK_SZ`.
abbrev pub max_block_sz : ℕ
max_block_sz = 2 ^ 24

-- The catch clauses around a call of a stream: a `DataStreamError` is passed on as a stream error,
-- `std::out_of_range` as a block error.
unfoldable pub wrap : {A : Type 0} → Result StreamError A → Result BlockError A
wrap (ok a) = ok a
wrap (err std_out_of_range) = err block_error
wrap (err e) = err (stream_error e)

-- The one catch clause around the push of `insert_data`, for a `DataStreamError`.
unfoldable pub wrap_push : {A : Type 0} → Result StreamError A → Result BlockError A
wrap_push (ok a) = ok a
wrap_push (err std_out_of_range) = err uncaught_error
wrap_push (err e) = err (stream_error e)

module _ {E V G D T S : Type 0} ⦃et : Eq T⦄ (c : StreamClass E V G D S) (element_of : T → E) where
  -- `_insert_topic`: a stream of the type that the topic has.
  unfoldable pub insert_topic : Bool → ℕ → T → List (T × S) → List (T × S)
  insert_topic datetime sz topic row =
      insert topic (c.make (element_of topic) datetime sz) (erase topic row)

  -- `_populate_tblock`.
  unfoldable pub populate_tblock : Bool → ℕ → List T → List (T × S) → List (T × S)
  unfolding insert_topic
  populate_tblock datetime sz [] row = row
  populate_tblock datetime sz (t ∷ ts) row =
      populate_tblock datetime sz ts (insert_topic datetime sz t row)

-- The loop of `_init` over the items, with the row that is made for each.
unfoldable pub init_rows : {I R : Type 0} → ⦃ei : Eq I⦄ → R → List I → List (I × R) → List (I × R)
init_rows row [] b = b
init_rows row (i ∷ is) b = init_rows row is (insert i row b)

module _ {E V G D I T S : Type 0} ⦃ei : Eq I⦄ ⦃et : Eq T⦄ (c : StreamClass E V G D S)
    (element_of : T → E) where
  -- The constructor from items and topics, and the one of an empty block.
  unfoldable pub new_block : List I → List T → ℕ → Bool → Block I T S
  unfolding populate_tblock init_rows
  new_block items topics sz datetime = record {
    block = init_rows (populate_tblock c element_of datetime sz topics []) items [];
    block_sz = sz;
    item_names = items;
    topic_enums = topics;
    datetime = datetime;
  }

  -- `add_item`: nothing, if the item is there.
  unfoldable pub add_item : I → Block I T S → Block I T S
  unfolding populate_tblock
  add_item item b = if contains item b.item_names then b else record b {
    item_names = item ∷ b.item_names;
    block =
        insert item (populate_tblock c element_of b.datetime b.block_sz b.topic_enums [])
          (erase item b.block);
  }

  -- `add_topic`: a stream in every row.
  unfoldable pub add_topic : T → Block I T S → Block I T S
  unfolding insert_topic
  add_topic topic b = if contains topic b.topic_enums then b else record b {
    topic_enums = topic ∷ b.topic_enums;
    block = map_values (insert_topic c element_of b.datetime b.block_sz topic) b.block;
  }

module _ {E V G D I T S : Type 0} ⦃ei : Eq I⦄ ⦃et : Eq T⦄ (c : StreamClass E V G D S) where
  -- `block_size(b)`, with what it returns.
  unfoldable pub set_block_size : ℕ → Block I T S → ℕ × Block I T S
  set_block_size size b =
      let sz = min size max_block_sz in
      (sz, record b { block = map_values (map_values (c.resize sz)) b.block; block_sz = sz })

  -- `insert_data`.
  unfoldable pub insert_data :
      Bool → T → I → V → D → Block I T S → Result BlockError (Unit {0}) × Block I T S
  unfolding wrap_push
  insert_data got topic item val datetime b = elim (lookup item b.block) [
    | none ↦ (err block_error, b)
    | some row ↦ elim (lookup topic row) [
      | none ↦ (err block_error, b)
      | some s ↦
          let (r, t) = c.push got val datetime s in
          (wrap_push r, record b { block = set_at item (set_at topic t row) b.block })
    ]
  ]

module _ {I T S : Type 0} ⦃ei : Eq I⦄ ⦃et : Eq T⦄ where
  -- `remove_item`: the item leaves the set before `at` can throw.
  unfoldable pub remove_item : I → Block I T S → Result BlockError (Unit {0}) × Block I T S
  remove_item item b =
      if contains item b.item_names
      then elim (lookup item b.block) [
        | none ↦ (err block_error, record b { item_names = remove item b.item_names })
        | some row ↦
            (ok tt, record b { item_names = remove item b.item_names; block = erase item b.block })
      ]
      else (ok tt, b)

  -- The loop of `remove_topic` over the rows; what is erased before a throw stays erased.
  unfoldable pub remove_from_rows :
      T → List (I × List (T × S)) → Result BlockError (Unit {0}) × List (I × List (T × S))
  remove_from_rows topic [] = (ok tt, [])
  remove_from_rows topic ((i, row) ∷ rows) = elim (lookup topic row) [
    | none ↦ (err block_error, (i, row) ∷ rows)
    | some s ↦ let (r, rest) = remove_from_rows topic rows in (r, (i, erase topic row) ∷ rest)
  ]

  unfoldable pub remove_topic : T → Block I T S → Result BlockError (Unit {0}) × Block I T S
  unfolding remove_from_rows
  remove_topic topic b =
      if contains topic b.topic_enums
      then (let (r, rows) = remove_from_rows topic b.block in
          (r, record b { topic_enums = remove topic b.topic_enums; block = rows }))
      else (ok tt, b)
