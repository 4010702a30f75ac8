-- ===== src/Client/Remove.antt =====
-- src/client/client_admin.cpp: the calls that take topics and items from a block, and that close
-- blocks. A block that is closed is destroyed by another thread; here it is just gone.
use Prim.Native.String.{String}
use tosdata_bridge.Prelude.{
  ℕ, suc, Bool, not, ◌&&◌, none, some, List, [], ◌∷◌, map, is_nil, if◌then◌else◌,
}
use tosdata_bridge.Prelude.Int.{ℤ, pos, eqb_ℤ}
use tosdata_bridge.Prelude.Action.{Result, ok, err}
use tosdata_bridge.Prelude.Dict.{lookup, erase, set_at, contains, remove, keys}
use tosdata_bridge.Topics.Enum.{Topic, null_topic}
use tosdata_bridge.Topics.Map.{topic_eq, text_eq}
use tosdata_bridge.Block.State.{remove_item, remove_topic}
use tosdata_bridge.Block.Limit.{count_down}
use tosdata_bridge.Engine.Handling.{sig_remove}
use tosdata_bridge.Ipc.Message.{error_not_connected}
use tosdata_bridge.Client.State.{
  TosdBlock, Buffers, Client, ClientError, raw_error, Outside, add_name, release_buffer,
  error_bad_input, error_block_doesnt_exist, error_bad_topic, error_bad_item, code_of,
}
use tosdata_bridge.Client.Valid.{is_valid_block_id, check_string_length}

-- The buffers, how many requests have failed, and what lies outside.
pub record Removal (W : Type 0) : Type 0 where
  pub buffers : Buffers
  pub failures : ℕ
  pub world : W

module _ {W : Type 0} (o : Outside W) (id : String) (timeout : ℕ) where
  -- The loops over the streams of a block, or of one of its topics or items.
  unfoldable pub release_streams : List (Topic × String) → Removal W → Removal W
  release_streams [] p = p
  release_streams ((t, item) ∷ streams) p =
      let (r, w) = o.ask t item timeout sig_remove p.world in
      release_streams streams (record {
        buffers = release_buffer t item id p.buffers;
        failures = if eqb_ℤ r (pos 0) then p.failures else suc p.failures;
        world = w;
      })

-- The streams of an item, or of a topic, in a row; and those of a block.
abbrev pub with_topic : Topic → List String → List (Topic × String)
with_topic t items = map (λ i. (t, i)) items

abbrev pub with_item : String → List Topic → List (Topic × String)
with_item item topics = map (λ t. (t, item)) topics

abbrev pub append_streams : List (Topic × String) → List (Topic × String) → List (Topic × String)
append_streams [] m = m
append_streams (s ∷ l) m = s ∷ append_streams l m

abbrev pub all_streams : List String → List Topic → List (Topic × String)
all_streams [] topics = []
all_streams (item ∷ items) topics =
    append_streams (with_item item topics) (all_streams items topics)

module _ {S : Type 0} where
  -- The loop that moves the items to those that are pre-cached, and that over the topics.
  unfoldable pub cache_items :
      List String → TosdBlock S → Result ClientError (Unit {0}) × TosdBlock S
  cache_items [] db = (ok tt, db)
  cache_items (item ∷ items) db =
      let (r, b) = remove_item item db.block in
      let db1 = record db { block = b; item_precache = add_name item db.item_precache } in
      let rest = cache_items items db1 in elim r [ err e ↦ (err (raw_error e), db1) | ok u ↦ rest ]

  unfoldable pub cache_topics :
      List Topic → TosdBlock S → Result ClientError (Unit {0}) × TosdBlock S
  cache_topics [] db = (ok tt, db)
  cache_topics (t ∷ topics) db =
      let (r, b) = remove_topic t db.block in
      let db1 = record db { block = b; topic_precache = add_name t db.topic_precache } in
      let rest = cache_topics topics db1 in
      elim r [ err e ↦ (err (raw_error e), db1) | ok u ↦ rest ]

  -- What becomes of the block in `TOSDB_RemoveTopic` and in `TOSDB_RemoveItem`.
  unfoldable pub drop_topic : Topic → TosdBlock S → Result ClientError (Unit {0}) × TosdBlock S
  drop_topic t db =
      let (r, b) = remove_topic t db.block in
      let db1 = record db { block = b } in
      let (r2, db2) = if is_nil b.topic_enums then cache_items b.item_names db1 else (ok tt, db1) in
      elim r [
        | err e ↦ (err (raw_error e), db1)
        | ok u ↦ elim r2 [
          | err e ↦ (err e, db2)
          | ok u ↦ (ok tt, record db2 { topic_precache = remove t db2.topic_precache })
        ]
      ]

  unfoldable pub drop_item : String → TosdBlock S → Result ClientError (Unit {0}) × TosdBlock S
  drop_item item db =
      let (r, b) = remove_item item db.block in
      let db1 = record db { block = b } in
      let (r2, db2) =
        if is_nil b.item_names then cache_topics b.topic_enums db1 else (ok tt, db1) in
      elim r [
        | err e ↦ (err (raw_error e), db1)
        | ok u ↦ elim r2 [
          | err e ↦ (err e, db2)
          | ok u ↦ (ok tt, record db2 { item_precache = remove item db2.item_precache })
        ]
      ]

module _ {S W : Type 0} (o : Outside W) where
  abbrev pub begin_removal : Client S → W → Removal W
  begin_removal s w = record { buffers = s.buffers; failures = 0; world = w }

  abbrev pub end_removal :
      String
      → Result ClientError (Unit {0})
      → TosdBlock S
      → Removal W
      → Client S
      → Result ClientError ℤ × (Client S × W)
  end_removal id r db p s = (
    elim r [ err e ↦ err e | ok u ↦ ok (code_of p.failures) ],
    (record s { dde_blocks = set_at id db s.dde_blocks; buffers = p.buffers }, p.world),
  )

  -- `TOSDB_RemoveTopic` of a topic
  unfoldable pub tosdb_remove_topic :
      Bool → String → Topic → Client S → W → Result ClientError ℤ × (Client S × W)
  tosdb_remove_topic connected id t s w =
      if topic_eq.beq t null_topic
      then (ok error_bad_topic, (s, w))
      else if not connected
      then (ok error_not_connected, (s, w))
      else elim (lookup id s.dde_blocks) [
        | none ↦ (ok error_block_doesnt_exist, (s, w))
        | some db ↦
            let p =
              release_streams o id db.timeout (with_topic t db.block.item_names)
                (begin_removal s w) in
            let (r, db1) = drop_topic t db in
            if contains t db.block.topic_enums
            then end_removal id r db1 p s
            else if contains t db.topic_precache
            then (
              ok (pos 0),
              (
                record s {
                  dde_blocks =
                      set_at id (record db { topic_precache = remove t db.topic_precache })
                        s.dde_blocks;
                },
                w,
              ),
            )
            else (ok error_bad_topic, (s, w))
      ]

  -- `TOSDB_RemoveItem`
  unfoldable pub tosdb_remove_item :
      Bool → String → String → Client S → W → Result ClientError ℤ × (Client S × W)
  tosdb_remove_item connected id item s w =
      if not (check_string_length item && is_valid_block_id id)
      then (ok error_bad_input, (s, w))
      else if not connected
      then (ok error_not_connected, (s, w))
      else elim (lookup id s.dde_blocks) [
        | none ↦ (ok error_block_doesnt_exist, (s, w))
        | some db ↦
            let p =
              release_streams o id db.timeout (with_item item db.block.topic_enums)
                (begin_removal s w) in
            let (r, db1) = drop_item item db in
            if contains item db.block.item_names
            then end_removal id r db1 p s
            else if contains item db.item_precache
            then (
              ok (pos 0),
              (
                record s {
                  dde_blocks =
                      set_at id (record db { item_precache = remove item db.item_precache })
                        s.dde_blocks;
                },
                w,
              ),
            )
            else (ok error_bad_item, (s, w))
      ]

  -- `TOSDB_CloseBlock`
  unfoldable pub tosdb_close_block : String → Client S → W → ℤ × (Client S × W)
  tosdb_close_block id s w =
      if not (is_valid_block_id id)
      then (error_bad_input, (s, w))
      else elim (lookup id s.dde_blocks) [
        | none ↦ (error_block_doesnt_exist, (s, w))
        | some db ↦
            let streams = all_streams db.block.item_names db.block.topic_enums in
            let p = release_streams o id db.timeout streams (begin_removal s w) in
            (
              code_of p.failures,
              (
                record {
                  dde_blocks = erase id s.dde_blocks;
                  buffers = p.buffers;
                  registry = count_down s.registry;
                },
                p.world,
              ),
            )
      ]

  -- The loop of `TOSDB_CloseBlocks` over a copy of the blocks: how many were not closed well.
  unfoldable pub close_all : List String → Client S → W → ℕ × (Client S × W)
  close_all [] s w = (0, (s, w))
  close_all (id ∷ ids) s w =
      let (r, (s1, w1)) = tosdb_close_block id s w in
      let (n, end) = close_all ids s1 w1 in (if eqb_ℤ r (pos 0) then n else suc n, end)

  -- `TOSDB_CloseBlocks`
  unfoldable pub tosdb_close_blocks : Client S → W → ℤ × (Client S × W)
  tosdb_close_blocks s w = let (n, end) = close_all (keys s.dde_blocks) s w in (code_of n, end)
