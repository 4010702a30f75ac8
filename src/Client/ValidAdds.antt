-- ===== src/Client/ValidAdds.antt =====
-- The calls of the client's interface (src/client/client_admin.cpp) and the thread that reads the buffers
-- keep the blocks of a client valid.
use Prim.Native.String.{String}
use tosdata_bridge.Prelude.{
  Bool, true, false, ◌&&◌, not, List, [], ◌∷◌, is_nil, if◌then◌else◌, Option-cases, Bool-cases, inl,
  inr,
}
use tosdata_bridge.Prelude.Int.{pos, eqb_ℤ}
use tosdata_bridge.Prelude.Dict.{lookup, Every-lookup, Every-set_at}
use tosdata_bridge.Topics.Enum.{Topic}
use tosdata_bridge.Topics.Map.{topic_eq, text_eq}
use tosdata_bridge.Block.Interface.{StreamClass, StreamLaws}
use tosdata_bridge.Block.State.{Block, add_topic}
use tosdata_bridge.Block.Invariant.{IsValid, add_item-IsValid, add_topic-IsValid}
use tosdata_bridge.Engine.Handling.{sig_add}
use tosdata_bridge.Client.State.{
  TosdBlock, Client, Outside, add_name, capture_buffer, set_union, set_difference,
}
use tosdata_bridge.Client.Add.{
  Progress, request_add, add_to_items, add_new_topics, add_new_items, add_to_block, take_both,
  take_item, precache_items, tosdb_add, valid_items, real_topics,
}
use tosdata_bridge.Getters.Untouched.{AllValid}

-- What holds of a block and of all that a granted request makes of it holds at the end of the loops.
module _ {S W : Type 0} (o : Outside W) (id : String) (Q : Block String Topic S → Type 0)
    (change : Topic → String → TosdBlock S → TosdBlock S)
    (keeps : (t : Topic) (i : String) (db : TosdBlock S)
      → Q db.block
      → Q (change t i db).block) where
  request_add-keeps :
      (t : Topic) (i : String) (p : Progress S W)
      → Q p.db.block
      → Q (request_add o id (change t i) t i p).1.db.block
  unfolding request_add
  request_add-keeps t i p h =
      let (r, w) = o.ask t i p.db.timeout sig_add p.world in
      elim (Bool-cases (eqb_ℤ r (pos 0))) [
        | inr b ↦ rw (request_add, b) h
        | inl b ↦ elim (Option-cases (capture_buffer t i id (o.opens t i w) p.buffers)) [
          | inl g ↦ rw (request_add, b, g) (keeps t i p.db h)
          | inr (bs, g) ↦ rw (request_add, b, g) (keeps t i p.db h)
        ]
      ]

  add_to_items-keeps :
      (t : Topic) (items : List String) (p : Progress S W)
      → Q p.db.block
      → Q (add_to_items o id change t items p).1.db.block
  unfolding add_to_items
  add_to_items-keeps t [] p h = h
  add_to_items-keeps t (i ∷ items) p h =
      let q = request_add o id (change t i) t i p in
      let k = request_add-keeps t i p h in
      elim (Bool-cases q.0) [
        | inl b ↦ rw (add_to_items, b) (add_to_items-keeps t items q.1 k)
        | inr b ↦ rw (add_to_items, b) k
      ]

  add_new_items-keeps :
      (ts : List Topic) (items : List String) (p : Progress S W)
      → Q p.db.block
      → Q (add_new_items o id change ts items p).1.db.block
  unfolding add_new_items
  add_new_items-keeps [] items p h = h
  add_new_items-keeps (t ∷ ts) items p h =
      let q = add_to_items o id change t items p in
      let k = add_to_items-keeps t items p h in
      elim (Bool-cases q.0) [
        | inl b ↦ rw (add_new_items, b) (add_new_items-keeps ts items q.1 k)
        | inr b ↦ rw (add_new_items, b) k
      ]

  add_new_topics-keeps :
      (ts : List Topic) (items : List String) (p : Progress S W)
      → Q p.db.block
      → Q (add_new_topics o id change ts items p).1.db.block
  unfolding add_new_topics
  add_new_topics-keeps [] items p h = h
  add_new_topics-keeps (t ∷ ts) items p h =
      let p1 : Progress S W =
        if is_nil items
        then record p { db = record p.db { topic_precache = add_name t p.db.topic_precache } }
        else p in
      let h1 : Q p1.db.block = elim (Bool-cases (is_nil items)) [
        | inl b ↦ rw b h
        | inr b ↦ rw b h
      ] in
      let q = add_to_items o id change t items p1 in
      let k = add_to_items-keeps t items p1 h1 in
      elim (Bool-cases q.0) [
        | inl b ↦ rw (add_new_topics, b) (add_new_topics-keeps ts items q.1 k)
        | inr b ↦ rw (add_new_topics, b) k
      ]

module _ {E V G D S W : Type 0} {c : StreamClass E V G D S} (laws : StreamLaws c)
    (element_of : Topic → E) (o : Outside W) where
  abbrev Valid : Block String Topic S → Type 0
  Valid = IsValid laws element_of

  ends-Valid :
      (a b : Bool) (x y z : Bool × Progress S W)
      → Valid x.1.db.block
      → Valid y.1.db.block
      → Valid z.1.db.block
      → let p : Bool × Progress S W = if a then x else if b then y else z in Valid p.1.db.block
  ends-Valid true b x y z h g k = h
  ends-Valid false true x y z h g k = g
  ends-Valid false false x y z h g k = k

  add_to_block-Valid :
      (id : String) (items : List String) (topics : List Topic) (p : Progress S W)
      → Valid p.db.block
      → Valid (add_to_block c element_of o id items topics p).1.db.block
  unfolding add_to_block
  add_to_block-Valid id items topics p v =
      let old_topics = p.db.block.topic_enums in
      let old_items = p.db.block.item_names in
      let tot_items = set_union items p.db.item_precache in
      let tdiff = set_difference (set_union topics p.db.topic_precache) old_topics in
      let a =
        add_new_topics o id (take_both c element_of o) tdiff (set_union tot_items old_items) p in
      let b : Bool × Progress S W =
        (true, record p { db = precache_items c element_of o items p.db }) in
      let q : Bool × Progress S W =
        if not (is_nil tdiff) then a else if is_nil old_topics then b else (true, p) in
      let h : Valid q.1.db.block =
        ends-Valid (not (is_nil tdiff)) (is_nil old_topics) a b (true, p)
          (add_new_topics-keeps o id Valid (take_both c element_of o)
            (λ t i db w.
              add_item-IsValid laws element_of i (add_topic c element_of t db.block)
                (add_topic-IsValid laws element_of t db.block w))
            tdiff (set_union tot_items old_items) p v)
          v v in
      let rest =
        add_new_items o id (take_item c element_of o) old_topics
          (set_difference tot_items old_items) q.1 in
      ends-Valid q.0 true rest (false, q.1) (false, q.1)
        (add_new_items-keeps o id Valid (take_item c element_of o)
          (λ t i db w. add_item-IsValid laws element_of i db.block w) old_topics
          (set_difference tot_items old_items) q.1 h)
        h h

  pub tosdb_add-AllValid :
      (connected : Bool) (id : String) (items : List String) (topics : List Topic) (s : Client S)
      (w : W)
      → AllValid laws element_of s
      → AllValid laws element_of (tosdb_add c element_of o connected id items topics s w).1.0
  unfolding tosdb_add
  tosdb_add-AllValid connected id items topics s w v =
      let is = valid_items items in
      let ts = real_topics topics in
      elim (Bool-cases (not connected)) [
        | inl a ↦ rw (tosdb_add, a) v
        | inr a ↦ elim (Bool-cases (is_nil is && is_nil ts)) [
          | inl b ↦ rw (tosdb_add, a, b) v
          | inr b ↦ elim (Option-cases (lookup id s.dde_blocks)) [
            | inl g ↦ rw (tosdb_add, a, b, g) v
            | inr (db, g) ↦
                let p : Progress S W = record {
                  db = db;
                  buffers = s.buffers;
                  failures = 0;
                  world = w;
                } in
                let block = (add_to_block c element_of o id is ts p).1.db in
                rw (tosdb_add, a, b, g)
                  (Every-set_at (λ (id : String) (db : TosdBlock S). Valid db.block) id block
                    s.dde_blocks
                    (add_to_block-Valid id is ts p (
                      Every-lookup (λ (id : String) (db : TosdBlock S). Valid db.block) id db
                        s.dde_blocks v g))
                    v)
          ]
        ]
      ]
