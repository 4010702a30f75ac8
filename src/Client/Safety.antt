-- ===== src/Client/Safety.antt =====
-- The buffers of a client (src/client/client_admin.cpp), and the blocks that they are read for.
use Prim.Native.String.{String}
use tosdata_bridge.Prelude.{
  ℕ, max, ◌≡◌, refl, sym, ap, subst, ◌∙◌, Bool, true, false, not, ◌&&◌, none, some, List, [],
  is_nil, arith, if◌then◌else◌, Option-cases, Bool-cases, inl, inr,
}
use tosdata_bridge.Prelude.Int.{ℤ, pos}
use tosdata_bridge.Prelude.Action.{Result, ok, err}
use tosdata_bridge.Prelude.Dict.{
  lookup, insert, set_at, contains, is_some, beq_refl, Every, lookup-set_at,
}
use tosdata_bridge.Prelude.Table.{pair_eq}
use tosdata_bridge.Topics.Enum.{Topic}
use tosdata_bridge.Topics.Map.{topic_eq, text_eq}
use tosdata_bridge.Block.Interface.{StreamClass}
use mathlib.Core.Bool.{false≢true}
use tosdata_bridge.Block.State.{Block, BlockError, add_item, add_topic}
use tosdata_bridge.Block.Limit.{Registry, create_empty_block}
use tosdata_bridge.Client.Valid.{is_valid_block_id, is_valid_block_size}
use tosdata_bridge.Client.State.{
  TosdBlock, Buffers, Client, Outside, error_block_creation, set_union, set_difference,
}
use tosdata_bridge.Client.Add.{
  min_timeout, Progress, add_new_topics, add_new_items, take_both, take_item, precache_items,
  add_to_block, tosdb_add, create_block, tosdb_create_block, real_topics, valid_items,
}
use tosdata_bridge.Client.Holders.{holds, IsRead}
use tosdata_bridge.Client.Adding.{
  has_stream, Covers, Takes, IsKept, Kept, add_new_items-Kept, add_new_topics-Kept, Kept-if,
}

-- Whether there is a block of this name, and it has the stream.
abbrev pub has : {S : Type 0} → String → Topic → String → List (String × TosdBlock S) → Bool
has id t i blocks = elim (lookup id blocks) [ none ↦ false | some db ↦ has_stream t i db ]

-- Each block that a buffer is read for exists, and has the buffer's stream; each buffer is read for
-- some block.
pub record IsSafe {S : Type 0} (s : Client S) : Type 0 where
  pub live :
      (id : String) (t : Topic) (i : String)
      → holds id t i s.buffers ≡ true
      → has id t i s.dde_blocks ≡ true
  pub all_read : Every IsRead s.buffers

module _ {S : Type 0} {s : Client S} (v : IsSafe s) (id : String) where
  pub covered : (db : TosdBlock S) → lookup id s.dde_blocks ≡ some db → Covers id db s.buffers
  covered db h u j g = ground (arith, v.live id u j g, h)

  -- A block and its holds in the buffers are replaced.
  pub replaced :
      (db next : TosdBlock S) (bs : Buffers) (r : Client S)
      → lookup id s.dde_blocks ≡ some db
      → r.dde_blocks ≡ set_at id next s.dde_blocks
      → r.buffers ≡ bs
      → Covers id next bs
      → ((k : String) (u : Topic) (j : String)
          → text_eq.beq id k ≡ false
          → holds k u j bs ≡ holds k u j s.buffers)
      → Every IsRead bs
      → IsSafe r
  replaced db next bs r h e f c o a = record {
    live = λ k t i g. elim (Bool-cases (text_eq.beq id k)) [
      | inl x ↦
          let p : id ≡ k = (text_eq.beq_iff id k).0 x in
          let g' : holds id t i bs ≡ true =
            ap (λ m. holds id t i m) (sym f) ∙ ap (λ w. holds w t i r.buffers) p ∙ g in
          ground (arith, e, lookup-set_at id k next s.dde_blocks, x, h, c t i g')
      | inr x ↦
          let g' : holds k t i s.buffers ≡ true =
            sym (o k t i x) ∙ ap (λ m. holds k t i m) (sym f) ∙ g in
          ground (arith, e, lookup-set_at id k next s.dde_blocks, x, v.live k t i g')
    ];
    all_read = subst (Every IsRead) (sym f) a;
  }

module _ {E V G D S W : Type 0} (c : StreamClass E V G D S) (element_of : Topic → E)
    (o : Outside W) where
  take_both-Takes :
      (t : Topic) (i : String) (db : TosdBlock S) → Takes (take_both c element_of o t i) t i db
  unfolding add_item add_topic
  take_both-Takes t i db = record {
    new_item = ground (arith, beq_refl i);
    new_topic = ground (arith, beq_refl t);
    items = λ j h. ground (arith, h);
    topics = λ u h. ground (arith, h);
  }

  take_item-Takes :
      (t : Topic) (i : String) (db : TosdBlock S)
      → contains t db.block.topic_enums ≡ true
      → Takes (take_item c element_of o t i) t i db
  unfolding add_item
  take_item-Takes t i db k = record {
    new_item = ground (arith, beq_refl i);
    new_topic = ground (arith, k);
    items = λ j h. ground (arith, h);
    topics = λ u h. ground (arith, h);
  }

  -- The part of `TOSDB_Add` for new topics, and for items where there is none.
  first-Kept :
      (id : String) (items all : List String) (ts : List Topic) (p : Progress S W)
      → IsKept id p.buffers p.db.block.topic_enums p.db p.buffers
      → (a b : Bool)
      → Kept o id p.buffers p.db.block.topic_enums (
          if a
          then add_new_topics o id (take_both c element_of o) ts all p
          else if b
          then (true, record p { db = precache_items c element_of o items p.db })
          else (true, p))
  first-Kept id items all ts p v true b =
      add_new_topics-Kept o id p.buffers p.db.block.topic_enums (take_both c element_of o) ts
        (λ t i db g. take_both-Takes t i db) all p v
  first-Kept id items all ts p v false true = record {
    covered = v.covered;
    others = v.others;
    all_read = v.all_read;
    grown = v.grown;
  }
  first-Kept id items all ts p v false false = v

  add_to_block-Kept :
      (id : String) (items : List String) (topics : List Topic) (p : Progress S W)
      → Covers id p.db p.buffers
      → Kept o id p.buffers p.db.block.topic_enums (add_to_block c element_of o id items topics p)
  unfolding add_to_block
  add_to_block-Kept id items topics p v =
      let old_topics = p.db.block.topic_enums in
      let old_items = p.db.block.item_names in
      let tot_items = set_union items p.db.item_precache in
      let tdiff = set_difference (set_union topics p.db.topic_precache) old_topics in
      let idiff = set_difference tot_items old_items in
      let all = set_union tot_items old_items in
      let r : Bool × Progress S W =
        if not (is_nil tdiff)
        then add_new_topics o id (take_both c element_of o) tdiff all p
        else if is_nil old_topics
        then (true, record p { db = precache_items c element_of o items p.db })
        else (true, p) in
      let start : IsKept id p.buffers old_topics p.db p.buffers = record {
        covered = v;
        others = λ k u j e. refl;
        all_read = λ a. a;
        grown = λ u h. h;
      } in
      let k : Kept o id p.buffers old_topics r =
        first-Kept id items all tdiff p start (not (is_nil tdiff)) (is_nil old_topics) in
      Kept-if o id p.buffers old_topics r.0 r.1
        (add_new_items o id (take_item c element_of o) old_topics idiff r.1) k
        (add_new_items-Kept o id p.buffers old_topics (take_item c element_of o) old_topics
          (λ t h i db g. take_item-Takes t i db (g t h)) idiff r.1 k)

  -- `TOSDB_Add`, whether or not it throws.
  pub tosdb_add-IsSafe :
      (connected : Bool) (id : String) (items : List String) (topics : List Topic) (s : Client S)
      (w : W)
      → IsSafe s
      → IsSafe (tosdb_add c element_of o connected id items topics s w).1.0
  unfolding tosdb_add
  tosdb_add-IsSafe connected id items topics s w v = elim (Bool-cases connected) [
    | inl e ↦ elim (Bool-cases (is_nil (valid_items items) && is_nil (real_topics topics))) [
      | inl f ↦ rw (e, f) v
      | inr f ↦ elim (Option-cases (lookup id s.dde_blocks)) [
        | inl g ↦ rw (e, f, g) v
        | inr (db, g) ↦
            let p : Progress S W = record {
              db = db;
              buffers = s.buffers;
              failures = 0;
              world = w;
            } in
            let q = (add_to_block c element_of o id (valid_items items) (real_topics topics) p).1 in
            let k =
              add_to_block-Kept id (valid_items items) (real_topics topics) p (covered v id db g) in
            let r : Client S = record s {
              dde_blocks = set_at id q.db s.dde_blocks;
              buffers = q.buffers;
            } in
            rw (e, f, g)
              (replaced v id db q.db q.buffers r g refl refl k.covered k.others
                (k.all_read v.all_read))
      ]
    ]
    | inr e ↦ rw e v
  ]

  has-insert :
      (id k : String) (t : Topic) (i : String) (db : TosdBlock S) (m : List (String × TosdBlock S))
      → has k t i m ≡ true
      → has k t i (insert id db m) ≡ true
  has-insert id k t i db m h = elim (Option-cases (lookup id m)) [
    | inl g ↦ elim (Bool-cases (text_eq.beq id k)) [
      | inl x ↦
          let q : lookup k m ≡ none = ap (λ j. lookup j m) (sym ((text_eq.beq_iff id k).0 x)) ∙ g in
          absurd (false≢true (ground (arith, q, h)))
      | inr x ↦ ground (arith, g, x, h)
    ]
    | inr (w, g) ↦ ground (arith, g, h)
  ]

  made-IsSafe :
      (id : String) (timeout : ℕ) (s : Client S) (reg : Registry)
      (r : Result BlockError (Block String Topic S))
      → IsSafe s
      → IsSafe
          (elim r as (λ _. ℤ × Client S) [
            | err e ↦ (error_block_creation, record s { registry = reg })
            | ok b ↦
                let db : TosdBlock S = record {
                  timeout = max timeout min_timeout;
                  block = b;
                  item_precache = [];
                  topic_precache = [];
                } in
                (pos 0, record s { dde_blocks = insert id db s.dde_blocks; registry = reg })
          ]).1
  made-IsSafe id timeout s reg (err e) v = record { live = v.live; all_read = v.all_read }
  made-IsSafe id timeout s reg (ok b) v = record {
    live = λ k t i h.
        has-insert id k t i
          (record {
            timeout = max timeout min_timeout;
            block = b;
            item_precache = [];
            topic_precache = [];
          })
          s.dde_blocks (v.live k t i h);
    all_read = v.all_read;
  }

  create_block-IsSafe :
      (id : String) (sz : ℕ) (d : Bool) (timeout : ℕ) (s : Client S)
      → IsSafe s
      → IsSafe (create_block c element_of o id sz d timeout s).1
  unfolding create_block
  create_block-IsSafe id sz d timeout s v = elim (Bool-cases (is_valid_block_size sz)) [
    | inl e ↦ elim (Bool-cases (is_some (lookup id s.dde_blocks))) [
      | inl f ↦ rw (e, f) v
      | inr f ↦
          let r = create_empty_block c element_of sz d s.registry in
          rw (e, f) (made-IsSafe id timeout s r.1 r.0 v)
    ]
    | inr e ↦ rw e v
  ]

  pub tosdb_create_block-IsSafe :
      (connected : Bool) (id : String) (sz : ℕ) (d : Bool) (timeout : ℕ) (s : Client S)
      → IsSafe s
      → IsSafe (tosdb_create_block c element_of o connected id sz d timeout s).1
  unfolding tosdb_create_block
  tosdb_create_block-IsSafe connected id sz d timeout s v = elim (Bool-cases connected) [
    | inl e ↦ elim (Bool-cases (is_valid_block_id id)) [
      | inl f ↦ rw (e, f) (create_block-IsSafe id sz d timeout s v)
      | inr f ↦ rw (e, f) v
    ]
    | inr e ↦ rw e v
  ]
