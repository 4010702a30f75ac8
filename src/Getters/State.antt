-- ===== src/Getters/State.antt =====
-- src/client/client_get.cpp: what the calls have in common that read one stream, how full a stream is
-- and where its marker stands. A stream is read through a pointer that its block owns, so what the
-- read does to the marker stays in the block.
use Prim.Native.String.{String}
use tosdata_bridge.Prelude.{
  ltb, ℕ, ◌%◌, ◌^◌, Bool, not, ◌&&◌, Option, none, some, List, length, map, if◌then◌else◌,
}
use tosdata_bridge.Prelude.Int.{ℤ, pos, negsuc}
use tosdata_bridge.Prelude.Action.{Result, ok, err, Action, gets}
use tosdata_bridge.Prelude.Dict.{Eq, lookup, set_at}
use tosdata_bridge.Prelude.Text.{count_chars}
use tosdata_bridge.Topics.Enum.{
  Topic, null_topic, topic_value, type_bits, ElementType, element_type,
}
use tosdata_bridge.Topics.Map.{topic_eq, text_eq, topic_of, text_of}
use tosdata_bridge.Stream.State.{StreamError, std_out_of_range}
use tosdata_bridge.Block.Interface.{StreamClass}
use tosdata_bridge.Block.State.{Block, BlockError, stream_error, set_block_size}
use tosdata_bridge.Block.Frame.{raw_stream_ptr}
use tosdata_bridge.Client.State.{
  TosdBlock, Client, error_bad_input, error_bad_topic, error_block_doesnt_exist,
}
use tosdata_bridge.Client.Valid.{is_valid_block_id, check_string_length}
use tosdata_bridge.Client.Query.{error_bad_input_buffer}
use tosdata_bridge.Getters.Interface.{ReadClass}

-- `TOSDB_ERROR_GET_DATA` and `TOSDB_ERROR_GET_STATE`
abbrev pub error_get_data : ℤ
error_get_data = negsuc 17

abbrev pub error_get_state : ℤ
error_get_state = negsuc 18

-- What is thrown: `TOSDB_DataBlockDoesntExist`, another `TOSDB_DataBlockError`, an exception of a stream
-- as it is, the `TOSDB_DataStreamError` of `TOSDB_Get`, and the `std::invalid_argument` of the calls
-- themselves.
pub data Thrown : Type 0 where
  doesnt_exist : Thrown
  raw_error : BlockError → Thrown
  stream_thrown : StreamError → Thrown
  get_error : Thrown
  invalid_call : Thrown

-- A write through a pointer to a stream.
unfoldable pub write_stream :
    {I T S : Type 0} → ⦃ei : Eq I⦄ → ⦃et : Eq T⦄ → I → T → S → Block I T S → Block I T S
write_stream item topic p b = elim (lookup item b.block) [
  | none ↦ b
  | some row ↦ record b { block = set_at item (set_at topic p row) b.block }
]

unfoldable pub thrown : {A : Type 0} → Result StreamError A → Result Thrown A
thrown (ok a) = ok a
thrown (err e) = err (stream_thrown e)

module _ {S : Type 0} where
  -- `GetBlockOrThrow`, and what is done with the block.
  unfoldable pub with_block :
      {A : Type 0} → (TosdBlock S → Result Thrown A) → String → Client S → Result Thrown A
  with_block f id s = elim (lookup id s.dde_blocks) [ none ↦ err doesnt_exist | some db ↦ f db ]

  -- `GetBlockOrThrow`, `raw_stream_ptr`, and a read of the stream.
  unfoldable pub with_stream :
      {A : Type 0}
      → Action S StreamError A
      → String
      → String
      → Topic
      → Client S
      → Result Thrown A × Client S
  unfolding write_stream thrown
  with_stream read id item t s = elim (lookup id s.dde_blocks) [
    | none ↦ (err doesnt_exist, s)
    | some db ↦ elim (raw_stream_ptr item t db.block) [
      | err e ↦ (err (raw_error e), s)
      | ok p ↦
          let (r, q) = read p in
          let next = record db { block = write_stream item t q db.block } in
          (thrown r, record s { dde_blocks = set_at id next s.dde_blocks })
    ]
  ]

  -- The catch clauses: `error` is what the call returns for all but a missing block.
  unfoldable pub caught : {A : Type 0} → ℤ → Result Thrown A × Client S → (ℤ × Option A) × Client S
  caught error (ok a, s) = ((pos 0, some a), s)
  caught error (err doesnt_exist, s) = ((error_block_doesnt_exist, none), s)
  caught error (err e, s) = ((error, none), s)

  -- A call with the text of a topic that reads one stream.
  unfoldable pub ask_stream :
      {A : Type 0}
      → ℤ
      → Action S StreamError A
      → String
      → String
      → String
      → Client S
      → (ℤ × Option A) × Client S
  unfolding caught with_stream
  ask_stream error read id item topic_str s =
      if not (is_valid_block_id id && check_string_length item && check_string_length topic_str)
      then ((error_bad_input, none), s)
      else if topic_eq.beq (topic_of topic_str) null_topic
      then ((error_bad_topic, none), s)
      else caught error (with_stream read id item (topic_of topic_str) s)

  -- The clause around a read: a `DataStreamError` becomes a `TOSDB_DataStreamError`.
  unfoldable pub rethrown : {A : Type 0} → Result Thrown A × Client S → Result Thrown A × Client S
  rethrown (err (stream_thrown std_out_of_range), s) = (err (stream_thrown std_out_of_range), s)
  rethrown (err (stream_thrown e), s) = (err (raw_error (stream_error e)), s)
  rethrown (r, s) = (r, s)

  -- A call with a topic that reads one stream.
  unfoldable pub read_or_throw :
      {A : Type 0}
      → Action S StreamError A
      → String
      → String
      → Topic
      → Client S
      → Result Thrown A × Client S
  unfolding rethrown with_stream
  read_or_throw read id item t s =
      if topic_eq.beq t null_topic
      then (err invalid_call, s)
      else rethrown (with_stream read id item t s)

  -- The calls that throw and ask for the state of a block: `TOSDB_GetTopicEnums`,
  -- `TOSDB_GetTopicNames`, `TOSDB_GetItemNames` and those of the pre-cached names.
  unfoldable pub get_topic_enums : String → Client S → Result Thrown (List Topic)
  unfolding with_block
  get_topic_enums = with_block (λ db. ok db.block.topic_enums)

  unfoldable pub get_topic_names : String → Client S → Result Thrown (List String)
  unfolding with_block
  get_topic_names = with_block (λ db. ok (map text_of db.block.topic_enums))

  unfoldable pub get_item_names : String → Client S → Result Thrown (List String)
  unfolding with_block
  get_item_names = with_block (λ db. ok db.block.item_names)

  unfoldable pub get_pre_cached_topic_enums : String → Client S → Result Thrown (List Topic)
  unfolding with_block
  get_pre_cached_topic_enums = with_block (λ db. ok db.topic_precache)

  unfoldable pub get_pre_cached_topic_names : String → Client S → Result Thrown (List String)
  unfolding with_block
  get_pre_cached_topic_names = with_block (λ db. ok (map text_of db.topic_precache))

  unfoldable pub get_pre_cached_item_names : String → Client S → Result Thrown (List String)
  unfolding with_block
  get_pre_cached_item_names = with_block (λ db. ok db.item_precache)

  -- `TOSDB_GetItemCount` and the other calls that throw and ask for a number.
  unfoldable pub get_item_count : String → Client S → Result Thrown ℕ
  unfolding with_block
  get_item_count = with_block (λ db. ok (length db.block.item_names))

  unfoldable pub get_topic_count : String → Client S → Result Thrown ℕ
  unfolding with_block
  get_topic_count = with_block (λ db. ok (length db.block.topic_enums))

  unfoldable pub get_pre_cached_item_count : String → Client S → Result Thrown ℕ
  unfolding with_block
  get_pre_cached_item_count = with_block (λ db. ok (length db.item_precache))

  unfoldable pub get_pre_cached_topic_count : String → Client S → Result Thrown ℕ
  unfolding with_block
  get_pre_cached_topic_count = with_block (λ db. ok (length db.topic_precache))

  unfoldable pub get_block_size : String → Client S → Result Thrown ℕ
  unfolding with_block
  get_block_size = with_block (λ db. ok db.block.block_sz)

  unfoldable pub is_using_date_time : String → Client S → Result Thrown Bool
  unfolding with_block
  is_using_date_time = with_block (λ db. ok db.block.datetime)

-- `TOSDB_GetTypeBits` and `TOSDB_GetTypeString` of a topic; the type stands for its `typeid` name.
unfoldable pub get_type_bits : Topic → Result Thrown ℕ
get_type_bits t =
    if topic_eq.beq t null_topic then err invalid_call else ok (type_bits (topic_value t))

unfoldable pub get_type_string : Topic → Result Thrown ElementType
get_type_string t =
    if topic_eq.beq t null_topic then err invalid_call else ok (element_type (topic_value t))

-- `TOSDB_GetTypeString`, which writes a name that has to fit with its end; the names are those of
-- `typeid`.
unfoldable pub tosdb_get_type_string : (ElementType → String) → String → ℕ → ℤ × Option String
tosdb_get_type_string type_name topic_str str_len =
    let name = type_name (element_type (topic_value (topic_of topic_str))) in
    if not (check_string_length topic_str)
    then (error_bad_input, none)
    else if topic_eq.beq (topic_of topic_str) null_topic
    then (error_bad_topic, none)
    else if ltb (count_chars name) str_len
    then (pos 0, some name)
    else (error_bad_input_buffer, none)

-- `TOSDB_SetBlockSize` that throws; the size is not checked.
unfoldable pub set_size_or_throw :
    {E V G D S : Type 0}
    → StreamClass E V G D S
    → String
    → ℕ
    → Client S
    → Result Thrown (Unit {0}) × Client S
unfolding set_block_size
set_size_or_throw c id sz s = elim (lookup id s.dde_blocks) [
  | none ↦ (err doesnt_exist, s)
  | some db ↦
      let next = record db { block = (set_block_size c sz db.block).1 } in
      (ok tt, record s { dde_blocks = set_at id next s.dde_blocks })
]

module _ {G D S : Type 0} (r : ReadClass G D S) where
  -- `TOSDB_GetStreamOccupancy`, `TOSDB_GetMarkerPosition` and `TOSDB_IsMarkerDirty`, of texts
  unfoldable pub tosdb_get_stream_occupancy :
      String → String → String → Client S → (ℤ × Option ℕ) × Client S
  unfolding ask_stream
  tosdb_get_stream_occupancy = ask_stream error_get_state (gets (λ p. r.size p % 2 ^ 32))

  unfoldable pub tosdb_get_marker_position :
      String → String → String → Client S → (ℤ × Option ℤ) × Client S
  unfolding ask_stream
  tosdb_get_marker_position = ask_stream error_get_state (gets r.marker_position)

  unfoldable pub tosdb_is_marker_dirty :
      String → String → String → Client S → (ℤ × Option Bool) × Client S
  unfolding ask_stream
  tosdb_is_marker_dirty = ask_stream error_get_state (gets r.is_marker_dirty)

  -- The same of topics
  unfoldable pub get_stream_occupancy :
      String → String → Topic → Client S → Result Thrown ℕ × Client S
  unfolding read_or_throw
  get_stream_occupancy = read_or_throw (gets (λ p. r.size p % 2 ^ 32))

  unfoldable pub get_marker_position :
      String → String → Topic → Client S → Result Thrown ℤ × Client S
  unfolding read_or_throw
  get_marker_position = read_or_throw (gets r.marker_position)

  unfoldable pub is_marker_dirty :
      String → String → Topic → Client S → Result Thrown Bool × Client S
  unfolding read_or_throw
  is_marker_dirty = read_or_throw (gets r.is_marker_dirty)
