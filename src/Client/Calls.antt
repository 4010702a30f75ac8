-- ===== src/Client/Calls.antt =====
-- src/client/client_admin.cpp: the other calls of the interface, and the calls that add or remove by
-- the texts of topics.
use Prim.Native.String.{String}
use tosdata_bridge.Prelude.{
  ℕ, Bool, not, ◌&&◌, Option, none, some, List, [], ◌∷◌, ltb, if◌then◌else◌, map,
}
use tosdata_bridge.Prelude.Int.{ℤ, pos, eqb_ℤ}
use tosdata_bridge.Prelude.Action.{Result, ok, err}
use tosdata_bridge.Prelude.Dict.{keys}
use tosdata_bridge.Prelude.Text.{to_string, stol, count_chars}
use tosdata_bridge.Topics.Enum.{Topic, null_topic, last}
use tosdata_bridge.Topics.Map.{topic_eq, text_eq, topic_of}
use tosdata_bridge.Block.Interface.{StreamClass}
use tosdata_bridge.Engine.Handling.{sig_remove, sig_test, sig_dump, sig_good}
use tosdata_bridge.Ipc.Message.{IpcError, call, error_ipc, error_not_connected}
use tosdata_bridge.Client.State.{Client, ClientError, Outside, error_bad_input, error_bad_topic}
use tosdata_bridge.Client.Valid.{
  is_valid_block_id, is_valid_item_string, check_string_length, check_string_lengths, count_strs,
}
use tosdata_bridge.Client.Add.{min_timeout, tosdb_add}
use tosdata_bridge.Client.Remove.{tosdb_remove_topic}

-- `TOSDB_DEF_TIMEOUT`
abbrev pub def_timeout : ℕ
def_timeout = 2000

module _ {E V G D S W : Type 0} (c : StreamClass E V G D S) (element_of : Topic → E)
    (o : Outside W) where
  -- `TOSDB_AddTopic` of a topic
  unfoldable pub tosdb_add_topic :
      Bool → String → Topic → Client S → W → Result ClientError ℤ × (Client S × W)
  tosdb_add_topic connected id t s w =
      if not (is_valid_block_id id)
      then (ok error_bad_input, (s, w))
      else if topic_eq.beq t null_topic
      then (ok error_bad_topic, (s, w))
      else tosdb_add c element_of o connected id [] (t ∷ []) s w

  -- `TOSDB_AddTopic` of a text
  unfoldable pub tosdb_add_topic_str :
      Bool → String → String → Client S → W → Result ClientError ℤ × (Client S × W)
  tosdb_add_topic_str connected id topic_str s w =
      if not (is_valid_block_id id && check_string_length topic_str)
      then (ok error_bad_input, (s, w))
      else if topic_eq.beq (topic_of topic_str) null_topic
      then (ok error_bad_topic, (s, w))
      else tosdb_add_topic connected id (topic_of topic_str) s w

  -- `TOSDB_AddItem`, of either kind of text
  unfoldable pub tosdb_add_item :
      Bool → String → String → Client S → W → Result ClientError ℤ × (Client S × W)
  tosdb_add_item connected id item s w =
      if not (is_valid_block_id id && is_valid_item_string item)
      then (ok error_bad_input, (s, w))
      else tosdb_add c element_of o connected id (item ∷ []) [] s w

  -- `TOSDB_AddTopics` of topics
  unfoldable pub tosdb_add_topics :
      Bool → String → List Topic → Client S → W → Result ClientError ℤ × (Client S × W)
  tosdb_add_topics connected id topics s w =
      if not (is_valid_block_id id)
      then (ok error_bad_input, (s, w))
      else tosdb_add c element_of o connected id [] topics s w

  -- `TOSDB_AddTopics` of texts
  unfoldable pub tosdb_add_topics_str :
      Bool → String → List String → Client S → W → Result ClientError ℤ × (Client S × W)
  tosdb_add_topics_str connected id topics_str s w =
      if not (is_valid_block_id id && check_string_lengths topics_str)
      then (ok error_bad_input, (s, w))
      else tosdb_add c element_of o connected id [] (map topic_of topics_str) s w

  -- `TOSDB_AddItems` of a set
  unfoldable pub tosdb_add_items :
      Bool → String → List String → Client S → W → Result ClientError ℤ × (Client S × W)
  tosdb_add_items connected id items s w =
      if not (is_valid_block_id id)
      then (ok error_bad_input, (s, w))
      else tosdb_add c element_of o connected id items [] s w

  -- `TOSDB_AddItems` of an array
  unfoldable pub tosdb_add_items_str :
      Bool → String → List String → Client S → W → Result ClientError ℤ × (Client S × W)
  tosdb_add_items_str connected id items s w =
      if not (is_valid_block_id id && check_string_lengths items)
      then (ok error_bad_input, (s, w))
      else tosdb_add c element_of o connected id items [] s w

  -- `TOSDB_Add` of arrays
  unfoldable pub tosdb_add_strs :
      Bool
      → String
      → List String
      → List String
      → Client S
      → W
      → Result ClientError ℤ × (Client S × W)
  tosdb_add_strs connected id items topics_str s w =
      if not (is_valid_block_id id && check_string_lengths items && check_string_lengths topics_str)
      then (ok error_bad_input, (s, w))
      else tosdb_add c element_of o connected id items (map topic_of topics_str) s w

module _ {S W : Type 0} (o : Outside W) where
  -- `TOSDB_RemoveTopic` of a text
  unfoldable pub tosdb_remove_topic_str :
      Bool → String → String → Client S → W → Result ClientError ℤ × (Client S × W)
  tosdb_remove_topic_str connected id topic_str s w =
      if not (is_valid_block_id id && check_string_length topic_str)
      then (ok error_bad_input, (s, w))
      else if topic_eq.beq (topic_of topic_str) null_topic
      then (ok error_bad_topic, (s, w))
      else tosdb_remove_topic o connected id (topic_of topic_str) s w

module _ {W : Type 0} (o : Outside W) where
  -- `TOSDB_RemoveOrphanedStream`
  unfoldable pub tosdb_remove_orphaned_stream : Bool → String → String → W → ℤ × W
  tosdb_remove_orphaned_stream connected item topic_str w =
      if not (check_string_length item && check_string_length topic_str)
      then (error_bad_input, w)
      else if topic_eq.beq (topic_of topic_str) null_topic
      then (error_bad_topic, w)
      else if not connected
      then (error_not_connected, w)
      else o.ask (topic_of topic_str) item def_timeout sig_remove w

  -- `TOSDB_IsConnectedToEngineAndTOS`, with `TEST_TOPIC` and `TEST_ITEM`
  unfoldable pub tosdb_is_connected_to_engine_and_tos : Bool → W → ℕ × W
  tosdb_is_connected_to_engine_and_tos connected w =
      let (r, w1) = o.ask last "SPY" min_timeout sig_test w in
      if not connected then (0, w) else (if eqb_ℤ r (pos 0) then 1 else 0, w1)

  -- `TOSDB_ConnectionState`
  unfoldable pub tosdb_connection_state : Bool → W → ℕ × W
  tosdb_connection_state connected w =
      let (r, w1) = o.ask last "SPY" min_timeout sig_test w in
      if not connected then (0, w) else (if eqb_ℤ r (pos 0) then 2 else 1, w1)

-- `TOSDB_DumpSharedBufferStatus`
unfoldable pub tosdb_dump_shared_buffer_status : Bool → (String → Option String) → Result IpcError ℤ
tosdb_dump_shared_buffer_status connected pipe =
    if not connected then ok error_not_connected else elim (call pipe (to_string sig_dump)) [
      | err e ↦ err e
      | ok none ↦ ok error_ipc
      | ok (some reply) ↦ elim (stol reply) [
        | none ↦ ok error_ipc
        | some r ↦ ok (if eqb_ℤ r (pos sig_good) then pos 0 else error_ipc)
      ]
    ]

-- `UpdateLatency`, whose values are milliseconds; a value of the C type that is none of them is
-- `other_latency`.
pub data UpdateLatency : Type 0 where
  fastest very_fast fast moderate slow glacial : UpdateLatency
  other_latency : (n : ℕ) → UpdateLatency

-- What `TOSDB_SetLatency` makes of it.
abbrev pub next_latency : UpdateLatency → UpdateLatency
next_latency (other_latency n) = moderate
next_latency latency = latency

-- `TOSDB_SetLatency`: the latency before, and that after.
abbrev pub tosdb_set_latency : UpdateLatency → UpdateLatency → UpdateLatency × UpdateLatency
tosdb_set_latency latency before = (before, next_latency latency)

-- `TOSDB_GetBlockIDs`: the strings that are written, each of which has to fit with its end. On an
-- error nothing is said of what is in the array.
abbrev pub copy_ids : ℕ → List String → Option (List String)
copy_ids str_len [] = some []
copy_ids str_len (id ∷ ids) = elim (copy_ids str_len ids) [
  | none ↦ none
  | some l ↦ if ltb (count_chars id) str_len then some (id ∷ l) else none
]

unfoldable pub tosdb_get_block_ids : {S : Type 0} → ℕ → ℕ → Client S → ℤ × List String
tosdb_get_block_ids array_len str_len s =
    let ids = keys s.dde_blocks in
    if ltb array_len (count_strs ids)
    then (error_bad_input, [])
    else elim (copy_ids str_len ids) [ none ↦ (error_bad_input, []) | some l ↦ (pos 0, l) ]
