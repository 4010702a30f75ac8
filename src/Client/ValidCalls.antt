-- ===== src/Client/ValidCalls.antt =====
-- The calls of the client's interface (src/client/client_admin.cpp and src/client/client_get.cpp) that
-- create, size and close blocks and take topics and items out of them, and the thread that reads the
-- buffers, keep the blocks of a client valid.
use Prim.Native.String.{String}
use tosdata_bridge.Prelude.{
  ◌≡◌, Bool, ◌&&◌, not, some, List, [], ◌∷◌, is_nil, if◌then◌else◌, Option-cases, Bool-cases, inl,
  inr,
}
use tosdata_bridge.Prelude.Action.{Result, ok, err}
use tosdata_bridge.Prelude.Dict.{
  lookup, set_at, contains, remove, Every, Every-lookup, Every-erase, Every-set_at,
}
use tosdata_bridge.Topics.Enum.{Topic, null_topic}
use tosdata_bridge.Topics.Map.{topic_eq, text_eq}
use tosdata_bridge.Block.Interface.{StreamClass, StreamLaws}
use tosdata_bridge.Block.State.{remove_item, remove_topic}
use tosdata_bridge.Block.Invariant.{IsValid}
use tosdata_bridge.Block.Removal.{remove_item-IsValid, remove_topic-IsValid}
use tosdata_bridge.Client.Valid.{is_valid_block_id, check_string_length}
use tosdata_bridge.Client.State.{TosdBlock, Client, ClientError, Outside, add_name}
use tosdata_bridge.Client.Remove.{
  cache_items, cache_topics, drop_topic, drop_item, tosdb_remove_topic, tosdb_remove_item,
  tosdb_close_block,
}
use tosdata_bridge.Getters.Untouched.{AllValid}

module _ {E V G D S : Type 0} {c : StreamClass E V G D S} (laws : StreamLaws c)
    (element_of : Topic → E) where
  -- A block of a name, and what it is.
  abbrev Named : String → TosdBlock S → Type 0
  Named id db = IsValid laws element_of db.block

  cache_items-Valid :
      (items : List String) (db : TosdBlock S) (id : String)
      → Named id db
      → Named id (cache_items items db).1
  unfolding cache_items
  cache_items-Valid [] db id v = v
  cache_items-Valid (i ∷ items) db id v =
      let (r, w, _) = remove_item-IsValid laws element_of i db.block v in
      let db1 = record db {
        block = (remove_item i db.block).1;
        item_precache = add_name i db.item_precache;
      } in
      rw (cache_items, r) (cache_items-Valid items db1 id w)

  cache_topics-Valid :
      (topics : List Topic) (db : TosdBlock S) (id : String)
      → Named id db
      → Named id (cache_topics topics db).1
  unfolding cache_topics
  cache_topics-Valid [] db id v = v
  cache_topics-Valid (t ∷ topics) db id v =
      let (r, w, _) = remove_topic-IsValid laws element_of t db.block v in
      let db1 = record db {
        block = (remove_topic t db.block).1;
        topic_precache = add_name t db.topic_precache;
      } in
      rw (cache_topics, r) (cache_topics-Valid topics db1 id w)

  cached :
      (p : Result ClientError (Unit {0}) × TosdBlock S) (change : TosdBlock S → TosdBlock S)
      (id : String)
      → ((db : TosdBlock S) → Named id db → Named id (change db))
      → Named id p.1
      → let q : Result ClientError (Unit {0}) × TosdBlock S = elim p.0 [
        | err e ↦ (err e, p.1)
        | ok u ↦ (ok tt, change p.1)
      ] in
        Named id q.1
  cached (err e, db) change id h v = v
  cached (ok u, db) change id h v = h db v

  drop_topic-Valid :
      (t : Topic) (db : TosdBlock S) (id : String) → Named id db → Named id (drop_topic t db).1
  unfolding drop_topic
  drop_topic-Valid t db id h =
      let (r, w, _) = remove_topic-IsValid laws element_of t db.block h in
      let b = (remove_topic t db.block).1 in
      let db1 : TosdBlock S = record db { block = b } in
      let p : Result ClientError (Unit {0}) × TosdBlock S =
        if is_nil b.topic_enums then cache_items b.item_names db1 else (ok tt, db1) in
      let k : Named id p.1 = elim (Bool-cases (is_nil b.topic_enums)) [
        | inr n ↦ rw n w
        | inl n ↦ rw n (cache_items-Valid b.item_names db1 id w)
      ] in
      rw (drop_topic, r)
        (cached p (λ d. record d { topic_precache = remove t d.topic_precache }) id (λ d k. k) k)

  drop_item-Valid :
      (i : String) (db : TosdBlock S) (id : String) → Named id db → Named id (drop_item i db).1
  unfolding drop_item
  drop_item-Valid i db id h =
      let (r, w, _) = remove_item-IsValid laws element_of i db.block h in
      let b = (remove_item i db.block).1 in
      let db1 : TosdBlock S = record db { block = b } in
      let p : Result ClientError (Unit {0}) × TosdBlock S =
        if is_nil b.item_names then cache_topics b.topic_enums db1 else (ok tt, db1) in
      let k : Named id p.1 = elim (Bool-cases (is_nil b.item_names)) [
        | inr n ↦ rw n w
        | inl n ↦ rw n (cache_topics-Valid b.topic_enums db1 id w)
      ] in
      rw (drop_item, r)
        (cached p (λ d. record d { item_precache = remove i d.item_precache }) id (λ d k. k) k)

  module _ {W : Type 0} (o : Outside W) (w : W) (s : Client S)
      (v : AllValid laws element_of s) where
    -- A block of the client is replaced.
    replaced-AllValid :
        (id : String) (db next : TosdBlock S)
        → lookup id s.dde_blocks ≡ some db
        → (Named id db → Named id next)
        → Every Named (set_at id next s.dde_blocks)
    replaced-AllValid id db next g h =
        Every-set_at Named id next s.dde_blocks (h (Every-lookup Named id db s.dde_blocks v g)) v

    pub tosdb_remove_topic-AllValid :
        (connected : Bool) (id : String) (t : Topic)
        → AllValid laws element_of (tosdb_remove_topic o connected id t s w).1.0
    unfolding tosdb_remove_topic
    tosdb_remove_topic-AllValid connected id t = elim (Bool-cases (topic_eq.beq t null_topic)) [
      | inl a ↦ rw (tosdb_remove_topic, a) v
      | inr a ↦ elim (Bool-cases (not connected)) [
        | inl b ↦ rw (tosdb_remove_topic, a, b) v
        | inr b ↦ elim (Option-cases (lookup id s.dde_blocks)) [
          | inl g ↦ rw (tosdb_remove_topic, a, b, g) v
          | inr (db, g) ↦ elim (Bool-cases (contains t db.block.topic_enums)) [
            | inl d ↦
                rw (tosdb_remove_topic, a, b, g, d)
                  (replaced-AllValid id db (drop_topic t db).1 g (drop_topic-Valid t db id))
            | inr d ↦ elim (Bool-cases (contains t db.topic_precache)) [
              | inl e ↦
                  rw (tosdb_remove_topic, a, b, g, d, e)
                    (replaced-AllValid id db
                      (record db { topic_precache = remove t db.topic_precache }) g (λ k. k))
              | inr e ↦ rw (tosdb_remove_topic, a, b, g, d, e) v
            ]
          ]
        ]
      ]
    ]

    pub tosdb_remove_item-AllValid :
        (connected : Bool) (id item : String)
        → AllValid laws element_of (tosdb_remove_item o connected id item s w).1.0
    unfolding tosdb_remove_item
    tosdb_remove_item-AllValid connected id item =
        elim (Bool-cases (not (check_string_length item && is_valid_block_id id))) [
          | inl a ↦ rw (tosdb_remove_item, a) v
          | inr a ↦ elim (Bool-cases (not connected)) [
            | inl b ↦ rw (tosdb_remove_item, a, b) v
            | inr b ↦ elim (Option-cases (lookup id s.dde_blocks)) [
              | inl g ↦ rw (tosdb_remove_item, a, b, g) v
              | inr (db, g) ↦ elim (Bool-cases (contains item db.block.item_names)) [
                | inl d ↦
                    rw (tosdb_remove_item, a, b, g, d)
                      (replaced-AllValid id db (drop_item item db).1 g (drop_item-Valid item db id))
                | inr d ↦ elim (Bool-cases (contains item db.item_precache)) [
                  | inl e ↦
                      rw (tosdb_remove_item, a, b, g, d, e)
                        (replaced-AllValid id db
                          (record db { item_precache = remove item db.item_precache }) g (λ k. k))
                  | inr e ↦ rw (tosdb_remove_item, a, b, g, d, e) v
                ]
              ]
            ]
          ]
        ]

    pub tosdb_close_block-AllValid :
        (id : String) → AllValid laws element_of (tosdb_close_block o id s w).1.0
    unfolding tosdb_close_block
    tosdb_close_block-AllValid id = elim (Bool-cases (not (is_valid_block_id id))) [
      | inl a ↦ rw (tosdb_close_block, a) v
      | inr a ↦ elim (Option-cases (lookup id s.dde_blocks)) [
        | inl g ↦ rw (tosdb_close_block, a, g) v
        | inr (db, g) ↦ rw (tosdb_close_block, a, g) (Every-erase Named id s.dde_blocks v)
      ]
    ]
