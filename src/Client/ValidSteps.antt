-- ===== src/Client/ValidSteps.antt =====
-- Every call that changes a client (src/client/client_admin.cpp and src/client/client_get.cpp), and every
-- round of the thread that reads the buffers, keeps the blocks valid.
use Prim.Native.String.{String}
use tosdata_bridge.Prelude.{
  ℕ, Bool, not, List, [], ◌∷◌, max, leb, Option-cases, Bool-cases, inl, inr,
}
use tosdata_bridge.Prelude.Dict.{
  lookup, keys, is_some, Every, Every-lookup, Every-insert, Every-set_at,
}
use tosdata_bridge.Topics.Enum.{Topic, ElementType}
use tosdata_bridge.Topics.Map.{topic_eq, text_eq}
use tosdata_bridge.Block.Interface.{StreamClass, StreamLaws}
use tosdata_bridge.Block.State.{new_block, set_block_size, insert_data}
use tosdata_bridge.Block.Invariant.{IsValid, new_block-IsValid, set_block_size-IsValid}
use tosdata_bridge.Block.Insert.{insert_data-IsValid}
use tosdata_bridge.Block.Limit.{create_empty_block}
use tosdata_bridge.Client.Valid.{is_valid_block_id, is_valid_block_size}
use tosdata_bridge.Client.State.{TosdBlock, Client, Outside}
use tosdata_bridge.Client.Add.{create_block, tosdb_create_block, min_timeout}
use tosdata_bridge.Client.Remove.{tosdb_close_block, close_all, tosdb_close_blocks}
use tosdata_bridge.Client.Query.{tosdb_set_block_size, tosdb_set_block_limit}
use tosdata_bridge.Client.Extract.{Found, read_buffers}
use tosdata_bridge.Client.Safety.{IsSafe}
use tosdata_bridge.Client.Rounds.{read_buffers-keeps}
use tosdata_bridge.Client.ValidAdds.{tosdb_add-AllValid}
use tosdata_bridge.Client.ValidCalls.{
  tosdb_remove_topic-AllValid, tosdb_remove_item-AllValid, tosdb_close_block-AllValid,
}
use tosdata_bridge.Client.Reachable.{
  Call, creates, adds, removes_topic, removes_item, closes, closes_all, sizes, limits,
  reads_buffers, new_client, do_call, do_calls, do_calls-new_client,
}
use tosdata_bridge.Getters.Untouched.{AllValid}

module _ {E V G D S W X : Type 0} {c : StreamClass E V G D S} (laws : StreamLaws c)
    (element_of : Topic → E) (cast : ElementType → X → V × D) (o : Outside W) where
  abbrev Named : String → TosdBlock S → Type 0
  Named id db = IsValid laws element_of db.block

  create_block-AllValid :
      (id : String) (sz : ℕ) (d : Bool) (timeout : ℕ) (s : Client S)
      → AllValid laws element_of s
      → AllValid laws element_of (create_block c element_of o id sz d timeout s).1
  unfolding create_block create_empty_block
  create_block-AllValid id sz d timeout s v = elim (Bool-cases (not (is_valid_block_size sz))) [
    | inl a ↦ rw (create_block, a) v
    | inr a ↦ elim (Bool-cases (is_some (lookup id s.dde_blocks))) [
      | inl b ↦ rw (create_block, a, b) v
      | inr b ↦ elim (Bool-cases (leb s.registry.max_block_count s.registry.block_count)) [
        | inl e ↦ rw (create_block, create_empty_block, a, b, e) v
        | inr e ↦
            rw (create_block, create_empty_block, a, b, e)
              (Every-insert Named id
                (record {
                  timeout = max timeout min_timeout;
                  block = new_block c element_of [] [] sz d;
                  item_precache = [];
                  topic_precache = [];
                })
                s.dde_blocks (new_block-IsValid laws element_of [] [] sz d) v)
      ]
    ]
  ]

  tosdb_create_block-AllValid :
      (connected : Bool) (id : String) (sz : ℕ) (d : Bool) (timeout : ℕ) (s : Client S)
      → AllValid laws element_of s
      → AllValid laws element_of (tosdb_create_block c element_of o connected id sz d timeout s).1
  unfolding tosdb_create_block
  tosdb_create_block-AllValid connected id sz d timeout s v = elim (Bool-cases (not connected)) [
    | inl a ↦ rw (tosdb_create_block, a) v
    | inr a ↦ elim (Bool-cases (not (is_valid_block_id id))) [
      | inl b ↦ rw (tosdb_create_block, a, b) v
      | inr b ↦ rw (tosdb_create_block, a, b) (create_block-AllValid id sz d timeout s v)
    ]
  ]

  close_all-AllValid :
      (ids : List String) (s : Client S) (w : W)
      → AllValid laws element_of s
      → AllValid laws element_of (close_all o ids s w).1.0
  unfolding close_all
  close_all-AllValid [] s w v = v
  close_all-AllValid (id ∷ ids) s w v =
      let (s1, w1) = (tosdb_close_block o id s w).1 in
      close_all-AllValid ids s1 w1 (tosdb_close_block-AllValid laws element_of o w s v id)

  set_block_size-AllValid :
      (id : String) (sz : ℕ) (s : Client S)
      → AllValid laws element_of s
      → AllValid laws element_of (tosdb_set_block_size c id sz s).1
  unfolding tosdb_set_block_size
  set_block_size-AllValid id sz s v = elim (Bool-cases (not (is_valid_block_id id))) [
    | inl a ↦ rw (tosdb_set_block_size, a) v
    | inr a ↦ elim (Bool-cases (not (is_valid_block_size sz))) [
      | inl b ↦ rw (tosdb_set_block_size, a, b) v
      | inr b ↦ elim (Option-cases (lookup id s.dde_blocks)) [
        | inl g ↦ rw (tosdb_set_block_size, a, b, g) v
        | inr (db, g) ↦
            rw (tosdb_set_block_size, a, b, g)
              (Every-set_at Named id (record db { block = (set_block_size c sz db.block).1 })
                s.dde_blocks
                (set_block_size-IsValid laws element_of sz db.block
                  (Every-lookup Named id db s.dde_blocks v g))
                v)
      ]
    ]
  ]

  read_buffers-AllValid :
      (found : Topic → String → Found X) (s : Client S)
      → AllValid laws element_of s
      → AllValid laws element_of (read_buffers c cast found s).1
  read_buffers-AllValid found s v =
      read_buffers-keeps c (Every Named)
        (λ got t i val d id db blocks g w.
          Every-set_at Named id (record db { block = (insert_data c got t i val d db.block).1 })
            blocks
            (insert_data-IsValid laws element_of got t i val d db.block
              (Every-lookup Named id db blocks w g))
            w)
        cast found s v

  do_call-AllValid :
      (call : Call X) (s : Client S) (w : W)
      → AllValid laws element_of s
      → AllValid laws element_of (do_call c element_of cast o call (s, w)).0
  unfolding do_call tosdb_close_blocks tosdb_set_block_limit
  do_call-AllValid (creates connected id sz d timeout) s w v =
      tosdb_create_block-AllValid connected id sz d timeout s v
  do_call-AllValid (adds connected id items topics) s w v =
      tosdb_add-AllValid laws element_of o connected id items topics s w v
  do_call-AllValid (removes_topic connected id t) s w v =
      tosdb_remove_topic-AllValid laws element_of o w s v connected id t
  do_call-AllValid (removes_item connected id item) s w v =
      tosdb_remove_item-AllValid laws element_of o w s v connected id item
  do_call-AllValid (closes id) s w v = tosdb_close_block-AllValid laws element_of o w s v id
  do_call-AllValid closes_all s w v = close_all-AllValid (keys s.dde_blocks) s w v
  do_call-AllValid (sizes id sz) s w v = set_block_size-AllValid id sz s v
  do_call-AllValid (limits n) s w v = v
  do_call-AllValid (reads_buffers found) s w v = read_buffers-AllValid found s v

  do_calls-AllValid :
      (calls : List (Call X)) (s : Client S) (w : W)
      → AllValid laws element_of s
      → AllValid laws element_of (do_calls c element_of cast o calls (s, w)).0
  unfolding do_calls
  do_calls-AllValid [] s w v = v
  do_calls-AllValid (call ∷ calls) s w v =
      let (s1, w1) = do_call c element_of cast o call (s, w) in
      do_calls-AllValid calls s1 w1 (do_call-AllValid call s w v)

  -- After any calls that create, size and close blocks, that set the limit and that add and remove
  -- topics and items, and rounds of the thread that reads the buffers, in any order, whatever the
  -- engine answers, whatever is found in the buffers, whether or not a buffer can be opened and whether
  -- or not a call or a round throws: each block that a buffer is read for exists and has the item and
  -- the topic of the buffer, each buffer is read for some block, and for none twice, and every block is
  -- valid: it has a row for each of its items, with a valid stream for each of its topics.
  pub do_calls-IsSafe_valid :
      (calls : List (Call X)) (w : W)
      → IsSafe (do_calls c element_of cast o calls (new_client, w)).0
        × AllValid laws element_of (do_calls c element_of cast o calls (new_client, w)).0
  do_calls-IsSafe_valid calls w =
      (do_calls-new_client c element_of cast o calls w, do_calls-AllValid calls new_client w tt)
