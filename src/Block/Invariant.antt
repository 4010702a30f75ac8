-- ===== src/Block/Invariant.antt =====
-- The invariant of a block (src/raw_data_block.tpp), on its rows and its items, and the calls that
-- change a block.
use tosdata_bridge.Prelude.{
  ℕ, ◌≡◌, refl, Bool, true, false, ◌||◌, List, [], ◌∷◌, min, arith, if_ind,
}
use tosdata_bridge.Prelude.Action.{ok}
use tosdata_bridge.Prelude.Dict.{
  Eq, lookup, insert, erase, contains, remove, map_values, is_some, Every, Every-erase,
  Every-insert, Every-map_values, lookup-erase, lookup-erase_self, lookup-insert, lookup-map_values,
}
use tosdata_bridge.Stream.State.{clamp_bound}
use tosdata_bridge.Block.Interface.{StreamClass, StreamLaws}
use tosdata_bridge.Block.State.{
  Block, insert_topic, populate_tblock, init_rows, new_block, set_block_size, add_item, add_topic,
  remove_item, remove_from_rows, remove_topic, max_block_sz,
}
use tosdata_bridge.Block.Rows.{IsRow, populate-IsRow, insert_topic-IsRow, resize-IsRow}

module _ {E V G D I T S : Type 0} ⦃ei : Eq I⦄ ⦃et : Eq T⦄ {c : StreamClass E V G D S}
    (laws : StreamLaws c) (element_of : T → E) where
  abbrev pub RowOf : Block I T S → I → List (T × S) → Type 0
  RowOf b i row = IsRow laws element_of b.topic_enums b.datetime (clamp_bound b.block_sz) row

  pub record IsValid (b : Block I T S) : Type 0 where
    pub items : (i : I) → contains i b.item_names ≡ is_some (lookup i b.block)
    pub rows : Every (RowOf b) b.block

  lookup-init_rows :
      (i : I) (row : List (T × S)) (is : List I) (m : List (I × List (T × S)))
      → is_some (lookup i (init_rows row is m)) ≡ (contains i is || is_some (lookup i m))
  unfolding init_rows
  lookup-init_rows i row [] m = refl
  lookup-init_rows i row (j ∷ is) m =
      ground (arith, lookup-init_rows i row is (insert j row m), ei.beq_iff j i)

  init_rows-Every :
      (P : I → List (T × S) → Type 0) (row : List (T × S))
      → ((i : I) → P i row)
      → (is : List I) (m : List (I × List (T × S))) → Every P m
      → Every P (init_rows row is m)
  unfolding init_rows
  init_rows-Every P row h [] m a = a
  init_rows-Every P row h (j ∷ is) m a =
      init_rows-Every P row h is (insert j row m) (Every-insert P j row m (h j) a)

  -- A new block satisfies the invariant.
  pub new_block-IsValid :
      (items : List I) (topics : List T) (sz : ℕ) (d : Bool)
      → IsValid (new_block c element_of items topics sz d)
  unfolding new_block
  new_block-IsValid items topics sz d =
      let row = populate_tblock c element_of d sz topics [] in
      record {
        items = λ i. ground (arith, lookup-init_rows i row items []);
        rows =
            init_rows-Every (λ i r. IsRow laws element_of topics d (clamp_bound sz) r) row
              (λ i. populate-IsRow laws element_of d sz topics) items [] tt;
      }

  pub set_block_size-IsValid :
      (sz : ℕ) (b : Block I T S) → IsValid b → IsValid (set_block_size c sz b).1
  unfolding set_block_size
  set_block_size-IsValid sz b v = record {
    items = λ i. ground (
      arith,
      v.items i,
      lookup-map_values (map_values (c.resize (min sz max_block_sz))) i b.block,
    );
    rows =
        Every-map_values (RowOf b)
          (λ i r.
            IsRow laws element_of b.topic_enums b.datetime (clamp_bound (min sz max_block_sz)) r)
          (map_values (c.resize (min sz max_block_sz)))
          (λ i r.
            resize-IsRow laws element_of b.topic_enums b.datetime (clamp_bound b.block_sz)
              (min sz max_block_sz) r)
          b.block v.rows;
  }

  pub add_item-IsValid : (i : I) (b : Block I T S) → IsValid b → IsValid (add_item c element_of i b)
  unfolding add_item
  add_item-IsValid i b v =
      let row = populate_tblock c element_of b.datetime b.block_sz b.topic_enums [] in
      let m = insert i row (erase i b.block) in
      let w : IsValid (record b { item_names = i ∷ b.item_names; block = m }) = record {
        items = λ j. ground (
          arith,
          v.items j,
          lookup-insert i j row (erase i b.block) (lookup-erase_self i b.block),
          lookup-erase i j b.block,
        );
        rows =
            Every-insert (RowOf b) i row (erase i b.block)
              (populate-IsRow laws element_of b.datetime b.block_sz b.topic_enums)
              (Every-erase (RowOf b) i b.block v.rows);
      } in
      if_ind IsValid (contains i b.item_names) b
        (record b { item_names = i ∷ b.item_names; block = m }) v w

  pub add_topic-IsValid :
      (t : T) (b : Block I T S) → IsValid b → IsValid (add_topic c element_of t b)
  unfolding add_topic
  add_topic-IsValid t b v =
      let f = insert_topic c element_of b.datetime b.block_sz t in
      let n = record b { topic_enums = t ∷ b.topic_enums; block = map_values f b.block } in
      let w : IsValid n = record {
        items = λ j. ground (arith, v.items j, lookup-map_values f j b.block);
        rows =
            Every-map_values (RowOf b) (RowOf n) f
              (λ i r. insert_topic-IsRow laws element_of b.topic_enums b.datetime b.block_sz t r)
              b.block v.rows;
      } in
      if_ind IsValid (contains t b.topic_enums) b n v w

  -- `remove_item` of a valid block does not throw, and forgets the item and its row.
  pub remove_item-eq :
      (i : I) (b : Block I T S)
      → IsValid b
      → (contains i b.item_names ≡ true)
      → remove_item i b
        ≡ (ok tt, record b { item_names = remove i b.item_names; block = erase i b.block })
  unfolding remove_item
  remove_item-eq i b v h = ground (arith, v.items i, h)

  pub remove_item-none :
      (i : I) (b : Block I T S) → contains i b.item_names ≡ false → remove_item i b ≡ (ok tt, b)
  unfolding remove_item
  remove_item-none i b h = ground (arith, h)

  -- The loop of `remove_topic` meets no row without the topic.
  remove_from_rows-eq :
      (ts : List T) (d : Bool) (n : ℕ) (t : T) (m : List (I × List (T × S)))
      → contains t ts ≡ true
      → Every (λ i row. IsRow laws element_of ts d n row) m
      → remove_from_rows t m ≡ (ok tt, map_values (erase t) m)
  unfolding remove_from_rows
  remove_from_rows-eq ts d n t [] h a = refl
  remove_from_rows-eq ts d n t ((i, row) ∷ m) h a =
      ground (arith, remove_from_rows-eq ts d n t m h a.1, a.0.topics t, h)

  pub remove_topic-eq :
      (t : T) (b : Block I T S)
      → IsValid b
      → (contains t b.topic_enums ≡ true)
      → remove_topic t b ≡ (
        ok tt,
        record b { topic_enums = remove t b.topic_enums; block = map_values (erase t) b.block },
      )
  unfolding remove_topic
  remove_topic-eq t b v h = ground (
    arith,
    remove_from_rows-eq b.topic_enums b.datetime (clamp_bound b.block_sz) t b.block h v.rows,
    h,
  )

  pub remove_topic-none :
      (t : T) (b : Block I T S) → contains t b.topic_enums ≡ false → remove_topic t b ≡ (ok tt, b)
  unfolding remove_topic
  remove_topic-none t b h = ground (arith, h)
