-- ===== src/Block/Removal.antt =====
-- `remove_item` and `remove_topic` (src/raw_data_block.tpp) of a valid block.
use tosdata_bridge.Prelude.{
  ◌≡◌, sym, ap, subst, ◌∙◌, false, none, arith, if◌then◌else◌, Bool-cases, inl, inr,
}
use tosdata_bridge.Prelude.Action.{ok}
use tosdata_bridge.Prelude.Dict.{
  Eq, lookup, erase, contains, remove, map_values, beq_refl, Every-erase, Every-map_values,
  lookup-erase, lookup-map_values, contains-remove,
}
use tosdata_bridge.Stream.State.{clamp_bound}
use tosdata_bridge.Block.Interface.{StreamClass, StreamLaws}
use tosdata_bridge.Block.State.{Block, remove_item, remove_topic}
use tosdata_bridge.Block.Rows.{erase-IsRow}
use tosdata_bridge.Block.Invariant.{
  IsValid, RowOf, remove_item-eq, remove_item-none, remove_topic-eq, remove_topic-none,
}

module _ {E V G D I T S : Type 0} ⦃ei : Eq I⦄ ⦃et : Eq T⦄ {c : StreamClass E V G D S}
    (laws : StreamLaws c) (element_of : T → E) where
  erased_item-IsValid :
      (i : I) (b : Block I T S)
      → IsValid laws element_of b
      → IsValid laws element_of
          (record b { item_names = remove i b.item_names; block = erase i b.block })
  erased_item-IsValid i b v = record {
    items =
        λ j. ground (arith, v.items j, lookup-erase i j b.block, contains-remove i j b.item_names);
    rows = Every-erase (RowOf laws element_of b) i b.block v.rows;
  }

  -- `remove_item` of a valid block does not throw, whether the item is there or not; the block
  -- stays valid, is without the item, and has the rows of the other items.
  pub remove_item-IsValid :
      (i : I) (b : Block I T S)
      → IsValid laws element_of b
      → ((remove_item i b).0 ≡ ok tt)
        × IsValid laws element_of (remove_item i b).1
        × ((j : I)
            → lookup j (remove_item i b).1.block ≡ (if ei.beq i j then none else lookup j b.block))
  remove_item-IsValid i b v = elim (Bool-cases (contains i b.item_names)) [
    | inl h ↦
        let e = remove_item-eq laws element_of i b v h in
        (
          ap (λ p. p.0) e,
          subst (λ p. IsValid laws element_of p.1) (sym e) (erased_item-IsValid i b v),
          λ j. ap (λ p. lookup j p.1.block) e ∙ lookup-erase i j b.block,
        )
    | inr h ↦
        let e = remove_item-none laws element_of i b h in
        (
          ap (λ p. p.0) e,
          subst (λ p. IsValid laws element_of p.1) (sym e) v,
          λ j. ap (λ p. lookup j p.1.block) e ∙ ground (arith, v.items i, h, ei.beq_iff i j),
        )
  ]

  erased_topic-IsValid :
      (t : T) (b : Block I T S)
      → IsValid laws element_of b
      → IsValid laws element_of
          (record b { topic_enums = remove t b.topic_enums; block = map_values (erase t) b.block })
  erased_topic-IsValid t b v =
      let n = record b {
        topic_enums = remove t b.topic_enums;
        block = map_values (erase t) b.block;
      } in
      record {
        items = λ j. ground (arith, v.items j, lookup-map_values (erase t) j b.block);
        rows =
            Every-map_values (RowOf laws element_of b) (RowOf laws element_of n) (erase t)
              (λ i r.
                erase-IsRow laws element_of b.topic_enums b.datetime (clamp_bound b.block_sz) t r)
              b.block v.rows;
      }

  -- `remove_topic` of a valid block does not throw, whether the topic is there or not; the block
  -- stays valid and is without the topic.
  pub remove_topic-IsValid :
      (t : T) (b : Block I T S)
      → IsValid laws element_of b
      → ((remove_topic t b).0 ≡ ok tt)
        × IsValid laws element_of (remove_topic t b).1
        × (contains t (remove_topic t b).1.topic_enums ≡ false)
  remove_topic-IsValid t b v = elim (Bool-cases (contains t b.topic_enums)) [
    | inl h ↦
        let e = remove_topic-eq laws element_of t b v h in
        (
          ap (λ p. p.0) e,
          subst (λ p. IsValid laws element_of p.1) (sym e) (erased_topic-IsValid t b v),
          ap (λ p. contains t p.1.topic_enums) e
              ∙ ground (arith, contains-remove t t b.topic_enums, beq_refl t),
        )
    | inr h ↦
        let e = remove_topic-none laws element_of t b h in
        (
          ap (λ p. p.0) e,
          subst (λ p. IsValid laws element_of p.1) (sym e) v,
          ap (λ p. contains t p.1.topic_enums) e ∙ h,
        )
  ]
