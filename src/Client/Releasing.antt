-- ===== src/Client/Releasing.antt =====
-- What a client (src/client/client_admin.cpp) has left after a call that releases buffers.
use Prim.Native.String.{String}
use mathlib.Core.Bool.{false≢true}
use tosdata_bridge.Prelude.{
  ◌≡◌, refl, sym, ap, subst, ◌∙◌, Bool, true, false, ◌&&◌, some, List, [], ◌∷◌, arith,
  if◌then◌else◌, Option-cases, Bool-cases, inl, inr,
}
use tosdata_bridge.Prelude.Dict.{
  lookup, erase, set_at, contains, remove, beq_refl, Every, lookup-erase,
}
use tosdata_bridge.Prelude.Table.{pair_eq}
use tosdata_bridge.Topics.Enum.{Topic, null_topic}
use tosdata_bridge.Topics.Map.{topic_eq, text_eq}
use tosdata_bridge.Block.Limit.{count_down}
use tosdata_bridge.Client.State.{TosdBlock, Buffers, Client, Outside}
use tosdata_bridge.Client.Valid.{is_valid_block_id, check_string_length}
use tosdata_bridge.Client.Remove.{
  release_streams, with_topic, with_item, all_streams, drop_topic, drop_item, begin_removal,
  end_removal, tosdb_remove_topic, tosdb_remove_item, tosdb_close_block, close_all,
}
use tosdata_bridge.Client.Holders.{holds, IsRead}
use tosdata_bridge.Client.Adding.{has_stream}
use tosdata_bridge.Client.Safety.{IsSafe, covered, replaced}
use tosdata_bridge.Client.Closing.{
  listed, listed-with_topic, listed-with_item, listed-all_streams, holds-release_streams,
  release_streams-IsRead, drop_topic-keeps, drop_item-keeps,
}

unlisted : (b h : Bool) → (if b then false else h) ≡ true → b ≡ false
unlisted true h e = absurd (false≢true e)
unlisted false h e = refl

module _ {S W : Type 0} (o : Outside W) {s : Client S} (w : W) (v : IsSafe s) (id : String)
    (db : TosdBlock S) (g : lookup id s.dde_blocks ≡ some db) where
  abbrev after : List (Topic × String) → Buffers
  after l = (release_streams o id db.timeout l (begin_removal o s w)).buffers

  -- The buffers of the streams are released, and the block loses no other stream.
  released-IsSafe :
      (l : List (Topic × String)) (next : TosdBlock S) (r : Client S)
      → ((u : Topic) (j : String)
          → has_stream u j db ≡ true
          → listed u j l ≡ false
          → has_stream u j next ≡ true)
      → r.dde_blocks ≡ set_at id next s.dde_blocks
      → r.buffers ≡ after l
      → IsSafe r
  released-IsSafe l next r k e f =
      let p = begin_removal o s w in
      let q = holds-release_streams o id db.timeout l p in
      replaced v id db next (after l) r g e f
        (λ u j h.
          let x : listed u j l ≡ false =
            unlisted (listed u j l) (holds id u j s.buffers)
              (sym (q id u j ∙ ground (arith, beq_refl id)) ∙ h) in
          let y : holds id u j s.buffers ≡ true = sym (q id u j ∙ rw x) ∙ h in
          k u j (covered v id db g u j y) x)
        (λ a u j h. q a u j ∙ ground (arith, h))
        (release_streams-IsRead o id db.timeout l p v.all_read)

  -- What is released all at once, with the block.
  abbrev streams : List (Topic × String)
  streams = all_streams db.block.item_names db.block.topic_enums

  gone :
      (k : String) (u : Topic) (j : String)
      → holds k u j (after streams)
        ≡ (if listed u j streams && text_eq.beq id k then false else holds k u j s.buffers)
  gone = holds-release_streams o id db.timeout streams (begin_removal o s w)

  released : (u : Topic) (j : String) → holds id u j (after streams) ≡ false
  released u j = elim (Bool-cases (holds id u j s.buffers)) [
    | inl h ↦
        let l : listed u j streams ≡ true =
          listed-all_streams u j db.block.item_names db.block.topic_enums
          ∙ covered v id db g u j h in
        gone id u j ∙ rw l (ground (arith, beq_refl id))
    | inr h ↦ gone id u j ∙ ground (arith, h)
  ]

  closed-IsSafe :
      (r : Client S) → r.dde_blocks ≡ erase id s.dde_blocks → r.buffers ≡ after streams → IsSafe r
  closed-IsSafe r e f = record {
    live = λ k u j h. elim (Bool-cases (text_eq.beq id k)) [
      | inl x ↦
          let p : id ≡ k = (text_eq.beq_iff id k).0 x in
          absurd (
            false≢true (
              sym (released u j)
              ∙ ap (λ m. holds id u j m) (sym f)
              ∙ ap (λ z. holds z u j r.buffers) p
              ∙ h))
      | inr x ↦
          let y : holds k u j s.buffers ≡ true =
            sym (gone k u j ∙ rw x (ground arith)) ∙ ap (λ m. holds k u j m) (sym f) ∙ h in
          ground (arith, e, lookup-erase id k s.dde_blocks, x, v.live k u j y)
    ];
    all_read =
        subst (Every IsRead) (sym f)
          (release_streams-IsRead o id db.timeout streams (begin_removal o s w) v.all_read);
  }

  topic-IsSafe :
      (t : Topic)
      → contains t db.block.topic_enums ≡ true
      → IsSafe
          (end_removal o id
            (drop_topic t db).0
            (drop_topic t db).1
            (release_streams o id db.timeout
              (with_topic t db.block.item_names)
              (begin_removal o s w))
            s).1.0
  topic-IsSafe t h =
      released-IsSafe (with_topic t db.block.item_names) (drop_topic t db).1
        (end_removal o id (drop_topic t db).0 (drop_topic t db).1
          (release_streams o id db.timeout (with_topic t db.block.item_names) (begin_removal o s w))
          s).1.0
        (λ u j a b.
          drop_topic-keeps db u j t
            (ground (arith, a, sym (listed-with_topic t u j db.block.item_names) ∙ b)) a)
        refl refl

  item-IsSafe :
      (i : String)
      → contains i db.block.item_names ≡ true
      → IsSafe
          (end_removal o id
            (drop_item i db).0
            (drop_item i db).1
            (release_streams o id db.timeout
              (with_item i db.block.topic_enums)
              (begin_removal o s w))
            s).1.0
  item-IsSafe i h =
      released-IsSafe (with_item i db.block.topic_enums) (drop_item i db).1
        (end_removal o id (drop_item i db).0 (drop_item i db).1
          (release_streams o id db.timeout (with_item i db.block.topic_enums) (begin_removal o s w))
          s).1.0
        (λ u j a b.
          drop_item-keeps db u j i h
            (ground (arith, a, sym (listed-with_item i j u db.block.topic_enums) ∙ b)) a)
        refl refl

module _ {S W : Type 0} (o : Outside W) {s : Client S} (w : W) (v : IsSafe s) where
  -- Only what is pre-cached changes.
  recached :
      (id : String) (db next : TosdBlock S)
      → lookup id s.dde_blocks ≡ some db
      → next.block ≡ db.block
      → IsSafe (record s { dde_blocks = set_at id next s.dde_blocks })
  recached id db next g e =
      replaced v id db next s.buffers (record s { dde_blocks = set_at id next s.dde_blocks }) g refl
        refl
        (λ u j h.
          ap (λ b. contains j b.item_names && contains u b.topic_enums) e ∙ covered v id db g u j h)
        (λ k u j h. refl) v.all_read

  pub remove_topic-IsSafe :
      (connected : Bool) (id : String) (t : Topic)
      → IsSafe (tosdb_remove_topic o connected id t s w).1.0
  unfolding tosdb_remove_topic
  remove_topic-IsSafe connected id t = elim (Bool-cases (topic_eq.beq t null_topic)) [
    | inl a ↦ rw a v
    | inr a ↦ elim (Bool-cases connected) [
      | inr b ↦ rw (a, b) v
      | inl b ↦ elim (Option-cases (lookup id s.dde_blocks)) [
        | inl g ↦ rw (a, b, g) v
        | inr (db, g) ↦ elim (Bool-cases (contains t db.block.topic_enums)) [
          | inl h ↦ rw (a, b, g, h) (topic-IsSafe o w v id db g t h)
          | inr h ↦ elim (Bool-cases (contains t db.topic_precache)) [
            | inr k ↦ rw (a, b, g, h, k) v
            | inl k ↦
                let next : TosdBlock S = record db {
                  topic_precache = remove t db.topic_precache;
                } in
                rw (a, b, g, h, k) (recached id db next g refl)
          ]
        ]
      ]
    ]
  ]

  pub remove_item-IsSafe :
      (connected : Bool) (id item : String) → IsSafe (tosdb_remove_item o connected id item s w).1.0
  unfolding tosdb_remove_item
  remove_item-IsSafe connected id item =
      elim (Bool-cases (check_string_length item && is_valid_block_id id)) [
        | inr a ↦ rw a v
        | inl a ↦ elim (Bool-cases connected) [
          | inr b ↦ rw (a, b) v
          | inl b ↦ elim (Option-cases (lookup id s.dde_blocks)) [
            | inl g ↦ rw (a, b, g) v
            | inr (db, g) ↦ elim (Bool-cases (contains item db.block.item_names)) [
              | inl h ↦ rw (a, b, g, h) (item-IsSafe o w v id db g item h)
              | inr h ↦ elim (Bool-cases (contains item db.item_precache)) [
                | inr k ↦ rw (a, b, g, h, k) v
                | inl k ↦
                    let next : TosdBlock S = record db {
                      item_precache = remove item db.item_precache;
                    } in
                    rw (a, b, g, h, k) (recached id db next g refl)
              ]
            ]
          ]
        ]
      ]

  pub close_block-IsSafe : (id : String) → IsSafe (tosdb_close_block o id s w).1.0
  unfolding tosdb_close_block
  close_block-IsSafe id = elim (Bool-cases (is_valid_block_id id)) [
    | inr a ↦ rw a v
    | inl a ↦ elim (Option-cases (lookup id s.dde_blocks)) [
      | inl g ↦ rw (a, g) v
      | inr (db, g) ↦
          let r : Client S = record {
            dde_blocks = erase id s.dde_blocks;
            buffers = after o w v id db g (all_streams db.block.item_names db.block.topic_enums);
            registry = count_down s.registry;
          } in
          rw (a, g) (closed-IsSafe o w v id db g r refl refl)
    ]
  ]

pub close_all-IsSafe :
    {S W : Type 0} (o : Outside W) (ids : List String) (s : Client S) (w : W)
    → IsSafe s
    → IsSafe (close_all o ids s w).1.0
unfolding close_all
close_all-IsSafe o [] s w v = v
close_all-IsSafe o (id ∷ ids) s w v =
    let (s1, w1) = (tosdb_close_block o id s w).1 in
    close_all-IsSafe o ids s1 w1 (close_block-IsSafe o w v id)
