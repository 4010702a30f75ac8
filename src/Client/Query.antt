-- ===== src/Client/Query.antt =====
-- src/client/client_get.cpp: the calls that ask for the state of a block and of the client, and
-- those that set the size of a block and the limit of blocks. What a call writes through its pointer
-- stands behind its result; on an error nothing is said of it.
use Prim.Native.String.{String}
use tosdata_bridge.Prelude.{
  ℕ, Bool, not, Option, none, some, List, [], length, map, ltb, if◌then◌else◌,
}
use tosdata_bridge.Prelude.Int.{ℤ, pos, negsuc}
use tosdata_bridge.Prelude.Dict.{lookup, set_at}
use tosdata_bridge.Topics.Enum.{null_topic, topic_value, type_bits}
use tosdata_bridge.Topics.Map.{topic_eq, text_eq, topic_of, text_of}
use tosdata_bridge.Block.Interface.{StreamClass}
use tosdata_bridge.Block.State.{set_block_size}
use tosdata_bridge.Block.Limit.{set_max_block_count}
use tosdata_bridge.Client.State.{
  TosdBlock, Client, error_bad_input, error_block_doesnt_exist, error_block_size, error_bad_topic,
}
use tosdata_bridge.Client.Valid.{is_valid_block_id, is_valid_block_size, check_string_length}
use tosdata_bridge.Client.Calls.{copy_ids}

-- `TOSDB_ERROR_BAD_INPUT_BUFFER`
abbrev pub error_bad_input_buffer : ℤ
error_bad_input_buffer = negsuc 1

module _ {S : Type 0} where
  -- `TOSDB_GetBlockLimit`, `TOSDB_SetBlockLimit` and `TOSDB_GetBlockCount`
  unfoldable pub tosdb_get_block_limit : Client S → ℕ
  tosdb_get_block_limit s = s.registry.max_block_count

  unfoldable pub tosdb_set_block_limit : ℕ → Client S → ℕ × Client S
  tosdb_set_block_limit sz s =
      let (limit, reg) = set_max_block_count sz s.registry in (limit, record s { registry = reg })

  unfoldable pub tosdb_get_block_count : Client S → ℕ
  tosdb_get_block_count s = s.registry.block_count

  -- A call that reads something of a block; `GetBlockOrThrow` throws where there is none.
  unfoldable pub ask_block : {A : Type 0} → (TosdBlock S → A) → String → Client S → ℤ × Option A
  ask_block f id s =
      if not (is_valid_block_id id)
      then (error_bad_input, none)
      else elim (lookup id s.dde_blocks) [
        | none ↦ (error_block_doesnt_exist, none)
        | some db ↦ (pos 0, some (f db))
      ]

  -- `TOSDB_GetBlockSize`, `TOSDB_GetItemCount`, `TOSDB_GetTopicCount`,
  -- `TOSDB_GetPreCachedItemCount`, `TOSDB_GetPreCachedTopicCount` and `TOSDB_IsUsingDateTime`
  unfoldable pub tosdb_get_block_size : String → Client S → ℤ × Option ℕ
  tosdb_get_block_size = ask_block (λ db. db.block.block_sz)

  unfoldable pub tosdb_get_item_count : String → Client S → ℤ × Option ℕ
  tosdb_get_item_count = ask_block (λ db. length db.block.item_names)

  unfoldable pub tosdb_get_topic_count : String → Client S → ℤ × Option ℕ
  tosdb_get_topic_count = ask_block (λ db. length db.block.topic_enums)

  unfoldable pub tosdb_get_pre_cached_item_count : String → Client S → ℤ × Option ℕ
  tosdb_get_pre_cached_item_count = ask_block (λ db. length db.item_precache)

  unfoldable pub tosdb_get_pre_cached_topic_count : String → Client S → ℤ × Option ℕ
  tosdb_get_pre_cached_topic_count = ask_block (λ db. length db.topic_precache)

  unfoldable pub tosdb_is_using_date_time : String → Client S → ℤ × Option Bool
  tosdb_is_using_date_time = ask_block (λ db. db.block.datetime)

  -- A call that writes names into an array of strings, each of which has to fit with its end.
  unfoldable pub ask_names :
      (TosdBlock S → List String) → String → ℕ → ℕ → Client S → ℤ × List String
  ask_names f id array_len str_len s =
      if not (is_valid_block_id id) then (error_bad_input, []) else elim (lookup id s.dde_blocks) [
        | none ↦ (error_block_doesnt_exist, [])
        | some db ↦
            if ltb array_len (length (f db))
            then (error_bad_input_buffer, [])
            else elim (copy_ids str_len (f db)) [
              | none ↦ (error_bad_input_buffer, [])
              | some l ↦ (pos 0, l)
            ]
      ]

  -- `TOSDB_GetTopicNames`, `TOSDB_GetItemNames`, `TOSDB_GetPreCachedTopicNames` and
  -- `TOSDB_GetPreCachedItemNames`
  unfoldable pub tosdb_get_topic_names : String → ℕ → ℕ → Client S → ℤ × List String
  tosdb_get_topic_names = ask_names (λ db. map text_of db.block.topic_enums)

  unfoldable pub tosdb_get_item_names : String → ℕ → ℕ → Client S → ℤ × List String
  tosdb_get_item_names = ask_names (λ db. db.block.item_names)

  unfoldable pub tosdb_get_pre_cached_topic_names : String → ℕ → ℕ → Client S → ℤ × List String
  tosdb_get_pre_cached_topic_names = ask_names (λ db. map text_of db.topic_precache)

  unfoldable pub tosdb_get_pre_cached_item_names : String → ℕ → ℕ → Client S → ℤ × List String
  tosdb_get_pre_cached_item_names = ask_names (λ db. db.item_precache)

-- `TOSDB_GetTypeBits`
unfoldable pub tosdb_get_type_bits : String → ℤ × Option ℕ
tosdb_get_type_bits topic_str =
    if not (check_string_length topic_str)
    then (error_bad_input, none)
    else if topic_eq.beq (topic_of topic_str) null_topic
    then (error_bad_topic, none)
    else (pos 0, some (type_bits (topic_value (topic_of topic_str))))

module _ {E V G D S : Type 0} (c : StreamClass E V G D S) where
  -- `TOSDB_SetBlockSize`
  unfoldable pub tosdb_set_block_size : String → ℕ → Client S → ℤ × Client S
  tosdb_set_block_size id sz s =
      if not (is_valid_block_id id)
      then (error_bad_input, s)
      else if not (is_valid_block_size sz)
      then (error_block_size, s)
      else elim (lookup id s.dde_blocks) [
        | none ↦ (error_block_doesnt_exist, s)
        | some db ↦
            let next = record db { block = (set_block_size c sz db.block).1 } in
            (pos 0, record s { dde_blocks = set_at id next s.dde_blocks })
      ]
