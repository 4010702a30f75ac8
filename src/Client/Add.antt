-- ===== src/Client/Add.antt =====
-- src/client/client_admin.cpp: `TOSDB_CreateBlock`, and `TOSDB_Add`, by which all calls add items and
-- topics to a block. `connected` is what `_connected` says.
use Prim.Native.String.{String}
use tosdata_bridge.Prelude.{
  ℕ, suc, Bool, true, false, not, ◌&&◌, none, some, List, [], ◌∷◌, is_nil, max, if◌then◌else◌,
}
use tosdata_bridge.Prelude.Int.{ℤ, pos, eqb_ℤ}
use tosdata_bridge.Prelude.Action.{Result, ok, err}
use tosdata_bridge.Prelude.Dict.{lookup, insert, set_at, is_some}
use tosdata_bridge.Topics.Enum.{Topic, null_topic}
use tosdata_bridge.Topics.Map.{topic_eq, text_eq}
use tosdata_bridge.Block.Interface.{StreamClass}
use tosdata_bridge.Block.State.{add_item, add_topic}
use tosdata_bridge.Block.Limit.{create_empty_block}
use tosdata_bridge.Engine.Handling.{sig_add}
use tosdata_bridge.Ipc.Message.{error_not_connected}
use tosdata_bridge.Client.State.{
  TosdBlock, Buffers, Client, ClientError, buffer_error, Outside, add_name, capture_buffer,
  set_union, set_difference, error_bad_input, error_block_already_exists, error_block_doesnt_exist,
  error_block_creation, error_block_size, code_of,
}
use tosdata_bridge.Client.Valid.{is_valid_block_id, is_valid_block_size, is_valid_item_string}

-- `TOSDB_MIN_TIMEOUT`
abbrev pub min_timeout : ℕ
min_timeout = 1500

-- The local variables of `TOSDB_Add`, with the block, the buffers and what lies outside.
pub record Progress (S W : Type 0) : Type 0 where
  pub db : TosdBlock S
  pub buffers : Buffers
  pub failures : ℕ
  pub world : W

-- The loops that remove null topics and invalid items.
abbrev pub real_topics : List Topic → List Topic
real_topics [] = []
real_topics (t ∷ ts) =
    if topic_eq.beq t null_topic then real_topics ts else add_name t (real_topics ts)

abbrev pub valid_items : List String → List String
valid_items [] = []
valid_items (i ∷ is) =
    if is_valid_item_string i then add_name i (valid_items is) else valid_items is

module _ {S W : Type 0} (o : Outside W) (id : String) where
  -- A request for a stream; if it is granted, the block changes and captures the buffer. It is
  -- false that the capture throws.
  unfoldable pub request_add :
      (TosdBlock S → TosdBlock S) → Topic → String → Progress S W → Bool × Progress S W
  request_add change t item p =
      let (r, w) = o.ask t item p.db.timeout sig_add p.world in
      if eqb_ℤ r (pos 0)
      then elim (capture_buffer t item id (o.opens t item w) p.buffers) [
        | none ↦ (false, record p { db = change p.db; world = w })
        | some bs ↦ (true, record p { db = change p.db; buffers = bs; world = w })
      ]
      else (true, record p { failures = suc p.failures; world = w })

  -- The inner loops, which a throw ends.
  unfoldable pub add_to_items :
      (Topic → String → TosdBlock S → TosdBlock S)
      → Topic
      → List String
      → Progress S W
      → Bool × Progress S W
  add_to_items change t [] p = (true, p)
  add_to_items change t (item ∷ items) p =
      let (good, q) = request_add (change t item) t item p in
      let rest = add_to_items change t items q in if good then rest else (false, q)

  -- The loop over the new topics, with all items.
  unfoldable pub add_new_topics :
      (Topic → String → TosdBlock S → TosdBlock S)
      → List Topic
      → List String
      → Progress S W
      → Bool × Progress S W
  add_new_topics change [] items p = (true, p)
  add_new_topics change (t ∷ ts) items p =
      let p1 =
        if is_nil items
        then record p { db = record p.db { topic_precache = add_name t p.db.topic_precache } }
        else p in
      let (good, q) = add_to_items change t items p1 in
      let rest = add_new_topics change ts items q in if good then rest else (false, q)

  -- The loop over the old topics, with the new items.
  unfoldable pub add_new_items :
      (Topic → String → TosdBlock S → TosdBlock S)
      → List Topic
      → List String
      → Progress S W
      → Bool × Progress S W
  add_new_items change [] items p = (true, p)
  add_new_items change (t ∷ ts) items p =
      let (good, q) = add_to_items change t items p in
      let rest = add_new_items change ts items q in if good then rest else (false, q)

module _ {E V G D S W : Type 0} (c : StreamClass E V G D S) (element_of : Topic → E)
    (o : Outside W) where
  -- `_createBlock`
  unfoldable pub create_block : String → ℕ → Bool → ℕ → Client S → ℤ × Client S
  create_block id sz is_datetime timeout s =
      if not (is_valid_block_size sz)
      then (error_block_size, s)
      else if is_some (lookup id s.dde_blocks)
      then (error_block_already_exists, s)
      else (let (r, reg) = create_empty_block c element_of sz is_datetime s.registry in
          elim r [
            | err e ↦ (error_block_creation, record s { registry = reg })
            | ok b ↦
                let db : TosdBlock S = record {
                  timeout = max timeout min_timeout;
                  block = b;
                  item_precache = [];
                  topic_precache = [];
                } in
                (pos 0, record s { dde_blocks = insert id db s.dde_blocks; registry = reg })
          ])

  -- `TOSDB_CreateBlock`
  unfoldable pub tosdb_create_block : Bool → String → ℕ → Bool → ℕ → Client S → ℤ × Client S
  tosdb_create_block connected id sz is_datetime timeout s =
      if not connected
      then (error_not_connected, s)
      else if not (is_valid_block_id id)
      then (error_bad_input, s)
      else create_block id sz is_datetime timeout s

  -- What a granted request changes in the block: for a new topic, and for a new item.
  abbrev pub take_both : Topic → String → TosdBlock S → TosdBlock S
  take_both t item db = record db {
    block = add_item c element_of item (add_topic c element_of t db.block);
    item_precache = [];
    topic_precache = [];
  }

  abbrev pub take_item : Topic → String → TosdBlock S → TosdBlock S
  take_item t item db = record db { block = add_item c element_of item db.block }

  -- The part of `TOSDB_Add` that pre-caches items where the block has no topic and gets none.
  abbrev pub precache_items : List String → TosdBlock S → TosdBlock S
  precache_items items db = record db { item_precache = set_union items db.item_precache }

  -- `TOSDB_Add` from where it has the block.
  unfoldable pub add_to_block :
      String → List String → List Topic → Progress S W → Bool × Progress S W
  add_to_block id items topics p =
      let old_topics = p.db.block.topic_enums in
      let old_items = p.db.block.item_names in
      let tot_items = set_union items p.db.item_precache in
      let tot_topics = set_union topics p.db.topic_precache in
      let tdiff = set_difference tot_topics old_topics in
      let idiff = set_difference tot_items old_items in
      let (good, q) =
        if not (is_nil tdiff)
        then add_new_topics o id take_both tdiff (set_union tot_items old_items) p
        else if is_nil old_topics
        then (true, record p { db = precache_items items p.db })
        else (true, p) in
      let rest = add_new_items o id take_item old_topics idiff q in
      if good then rest else (false, q)

  -- `TOSDB_Add`
  unfoldable pub tosdb_add :
      Bool
      → String
      → List String
      → List Topic
      → Client S
      → W
      → Result ClientError ℤ × (Client S × W)
  tosdb_add connected id items topics s w =
      let is = valid_items items in
      let ts = real_topics topics in
      if not connected
      then (ok error_not_connected, (s, w))
      else if is_nil is && is_nil ts
      then (ok error_bad_input, (s, w))
      else elim (lookup id s.dde_blocks) [
        | none ↦ (ok error_block_doesnt_exist, (s, w))
        | some db ↦
            let (good, q) =
              add_to_block id is ts
                (record { db = db; buffers = s.buffers; failures = 0; world = w }) in
            (
              if good then ok (code_of q.failures) else err buffer_error,
              (record s { dde_blocks = set_at id q.db s.dde_blocks; buffers = q.buffers }, q.world),
            )
      ]
