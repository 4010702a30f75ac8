-- ===== src/Client/Reachable.antt =====
-- The calls of the interface of a client (src/client/client_admin.cpp), in any order.
use Prim.Native.String.{String}
use tosdata_bridge.Prelude.{ℕ, refl, Bool, Option-cases, Bool-cases, inl, inr, List, [], ◌∷◌}
use tosdata_bridge.Prelude.Dict.{keys, lookup, set_at}
use tosdata_bridge.Topics.Enum.{Topic, ElementType}
use tosdata_bridge.Topics.Map.{topic_eq, text_eq}
use tosdata_bridge.Block.Interface.{StreamClass}
use tosdata_bridge.Block.Limit.{new_registry}
use tosdata_bridge.Client.State.{Client, Outside}
use tosdata_bridge.Client.Add.{tosdb_create_block, tosdb_add}
use tosdata_bridge.Client.Remove.{
  tosdb_remove_topic, tosdb_remove_item, tosdb_close_block, tosdb_close_blocks,
}
use tosdata_bridge.Block.State.{set_block_size}
use tosdata_bridge.Client.Valid.{is_valid_block_id, is_valid_block_size}
use tosdata_bridge.Client.Query.{tosdb_set_block_size, tosdb_set_block_limit}
use tosdata_bridge.Client.Extract.{Found, read_buffers}
use tosdata_bridge.Client.Rounds.{read_buffers-IsSafe}
use tosdata_bridge.Client.Safety.{
  covered, replaced, IsSafe, tosdb_add-IsSafe, tosdb_create_block-IsSafe,
}
use tosdata_bridge.Client.Releasing.{
  remove_topic-IsSafe, remove_item-IsSafe, close_block-IsSafe, close_all-IsSafe,
}

-- A client that has no block, and reads no buffer.
abbrev pub new_client : {S : Type 0} → Client S
new_client = record { dde_blocks = []; buffers = []; registry = new_registry }

-- The calls that change the client, and the rounds of the thread that reads the buffers.
pub data Call (X : Type 0) : Type 0 where
  creates : (connected : Bool) → (id : String) → (sz : ℕ) → (d : Bool) → (timeout : ℕ) → Call X
  adds : (connected : Bool) → (id : String) → (items : List String) → (topics : List Topic) → Call X
  removes_topic : (connected : Bool) → (id : String) → (t : Topic) → Call X
  removes_item : (connected : Bool) → (id : String) → (item : String) → Call X
  closes : (id : String) → Call X
  closes_all : Call X
  sizes : (id : String) → (sz : ℕ) → Call X
  limits : (n : ℕ) → Call X
  reads_buffers : (found : Topic → String → Found X) → Call X

module _ {E V G D S W X : Type 0} (c : StreamClass E V G D S) (element_of : Topic → E)
    (cast : ElementType → X → V × D) (o : Outside W) where
  unfoldable pub do_call : Call X → Client S × W → Client S × W
  do_call (creates connected id sz d timeout) (s, w) =
      ((tosdb_create_block c element_of o connected id sz d timeout s).1, w)
  do_call (adds connected id items topics) (s, w) =
      (tosdb_add c element_of o connected id items topics s w).1
  do_call (removes_topic connected id t) (s, w) = (tosdb_remove_topic o connected id t s w).1
  do_call (removes_item connected id item) (s, w) = (tosdb_remove_item o connected id item s w).1
  do_call (closes id) (s, w) = (tosdb_close_block o id s w).1
  do_call closes_all (s, w) = (tosdb_close_blocks o s w).1
  do_call (sizes id sz) (s, w) = ((tosdb_set_block_size c id sz s).1, w)
  do_call (limits n) (s, w) = ((tosdb_set_block_limit n s).1, w)
  do_call (reads_buffers found) (s, w) = ((read_buffers c cast found s).1, w)

  unfoldable pub do_calls : List (Call X) → Client S × W → Client S × W
  do_calls [] p = p
  do_calls (call ∷ calls) p = do_calls calls (do_call call p)

  -- A block of another size has the same streams.
  set_block_size-IsSafe :
      (id : String) (sz : ℕ) (s : Client S) → IsSafe s → IsSafe (tosdb_set_block_size c id sz s).1
  unfolding tosdb_set_block_size set_block_size
  set_block_size-IsSafe id sz s v = elim (Bool-cases (is_valid_block_id id)) [
    | inr a ↦ rw a v
    | inl a ↦ elim (Bool-cases (is_valid_block_size sz)) [
      | inr b ↦ rw (a, b) v
      | inl b ↦ elim (Option-cases (lookup id s.dde_blocks)) [
        | inl g ↦ rw (a, b, g) v
        | inr (db, g) ↦
            let next = record db { block = (set_block_size c sz db.block).1 } in
            let r : Client S = record s { dde_blocks = set_at id next s.dde_blocks } in
            rw (a, b, g)
              (replaced v id db next s.buffers r g refl refl (covered v id db g) (λ k u j e. refl)
                v.all_read)
      ]
    ]
  ]

  do_call-IsSafe :
      (call : Call X) (s : Client S) (w : W) → IsSafe s → IsSafe (do_call call (s, w)).0
  unfolding do_call tosdb_close_blocks tosdb_set_block_limit
  do_call-IsSafe (creates connected id sz d timeout) s w v =
      tosdb_create_block-IsSafe c element_of o connected id sz d timeout s v
  do_call-IsSafe (adds connected id items topics) s w v =
      tosdb_add-IsSafe c element_of o connected id items topics s w v
  do_call-IsSafe (removes_topic connected id t) s w v = remove_topic-IsSafe o w v connected id t
  do_call-IsSafe (removes_item connected id item) s w v = remove_item-IsSafe o w v connected id item
  do_call-IsSafe (closes id) s w v = close_block-IsSafe o w v id
  do_call-IsSafe (sizes id sz) s w v = set_block_size-IsSafe id sz s v
  do_call-IsSafe (limits n) s w v = record { live = v.live; all_read = v.all_read }
  do_call-IsSafe (reads_buffers found) s w v = read_buffers-IsSafe c cast found s v
  do_call-IsSafe closes_all s w v = close_all-IsSafe o (keys s.dde_blocks) s w v

  do_calls-IsSafe :
      (calls : List (Call X)) (s : Client S) (w : W) → IsSafe s → IsSafe (do_calls calls (s, w)).0
  unfolding do_calls
  do_calls-IsSafe [] s w v = v
  do_calls-IsSafe (call ∷ calls) s w v =
      let (s1, w1) = do_call call (s, w) in do_calls-IsSafe calls s1 w1 (do_call-IsSafe call s w v)

  -- After any calls and rounds of the thread that reads the buffers, in any order, whatever the
  -- engine answers, whether or not a buffer can be opened, and whatever is found in the buffers: each
  -- block that a buffer is read for exists and has the stream of the buffer, and each buffer is read
  -- for some block, and for none twice.
  pub do_calls-new_client :
      (calls : List (Call X)) (w : W) → IsSafe (do_calls calls (new_client, w)).0
  do_calls-new_client calls w =
      do_calls-IsSafe calls new_client w (record { live = λ id t i h. h; all_read = tt })
