-- ===== src/Block/Insert.antt =====
-- `insert_data` (src/raw_data_block.tpp): what it does to the streams of a block.
use tosdata_bridge.Prelude.{
  ◌≡◌, sym, ap, subst, ◌∙◌, Bool, ◌&&◌, Option, none, some, List, arith, if◌then◌else◌,
  Option-cases, inl, inr,
}
use tosdata_bridge.Prelude.Action.{err}
use tosdata_bridge.Prelude.Dict.{Eq, lookup, set_at, Every-lookup, Every-set_at, lookup-set_at}
use tosdata_bridge.Stream.State.{clamp_bound}
use tosdata_bridge.Block.Interface.{StreamClass, StreamLaws}
use tosdata_bridge.Block.State.{Block, block_error, wrap_push, insert_data}
use tosdata_bridge.Block.Rows.{IsStream, set_at-IsRow, push-IsStream}
use tosdata_bridge.Block.Invariant.{IsValid, RowOf}

-- The stream of an item and a topic.
abbrev pub stream_at : {I T S : Type 0} → ⦃ei : Eq I⦄ → ⦃et : Eq T⦄ → I → T → Block I T S → Option S
stream_at i t b = elim (lookup i b.block) [ none ↦ none | some row ↦ lookup t row ]

module _ {E V G D I T S : Type 0} ⦃ei : Eq I⦄ ⦃et : Eq T⦄ (c : StreamClass E V G D S) where
  insert_data-eq :
      (got : Bool) (t : T) (i : I) (v : V) (d : D) (b : Block I T S) (row : List (T × S)) (s : S)
      → lookup i b.block ≡ some row
      → lookup t row ≡ some s
      → insert_data c got t i v d b ≡ (
        wrap_push (c.push got v d s).0,
        record b { block = set_at i (set_at t (c.push got v d s).1 row) b.block },
      )
  unfolding insert_data
  insert_data-eq got t i v d b row s h k = ground (arith, h, k)

  insert_data-none :
      (got : Bool) (t : T) (i : I) (v : V) (d : D) (b : Block I T S)
      → stream_at i t b ≡ none
      → insert_data c got t i v d b ≡ (err block_error, b)
  unfolding insert_data
  insert_data-none got t i v d b h = elim (Option-cases (lookup i b.block)) [
    | inl e ↦ ground (arith, e)
    | inr (row, e) ↦ ground (arith, e, h)
  ]

  pub insert_data-stream_at :
      (got : Bool) (t : T) (i : I) (v : V) (d : D) (b : Block I T S)
      → ((insert_data c got t i v d b).0 ≡ elim (stream_at i t b) [
        | none ↦ err block_error
        | some s ↦ wrap_push (c.push got v d s).0
      ])
        × ((j : I) (u : T)
            → stream_at j u (insert_data c got t i v d b).1 ≡ (
                if ei.beq i j && et.beq t u
                then elim (stream_at i t b) [ none ↦ none | some s ↦ some (c.push got v d s).1 ]
                else stream_at j u b))
  insert_data-stream_at got t i v d b = elim (Option-cases (stream_at i t b)) [
    | inl h ↦
        let e = insert_data-none got t i v d b h in
        (
          ap (λ p. p.0) e ∙ ground (arith, h),
          λ j u. ap (λ p. stream_at j u p.1) e ∙ ground (arith, h, ei.beq_iff i j, et.beq_iff t u),
        )
    | inr (s, h) ↦ elim (Option-cases (lookup i b.block)) [
      | inl g ↦ absurd (ground (arith, h, g))
      | inr (row, g) ↦
          let k : lookup t row ≡ some s = ground (arith, h, g) in
          let e = insert_data-eq got t i v d b row s g k in
          let r = set_at t (c.push got v d s).1 row in
          (
            ap (λ p. p.0) e ∙ ground (arith, h),
            λ j u.
                ap (λ p. stream_at j u p.1) e
                ∙ ground (
                  arith,
                  h,
                  g,
                  k,
                  lookup-set_at i j r b.block,
                  lookup-set_at t u (c.push got v d s).1 row,
                  ei.beq_iff i j,
                  et.beq_iff t u,
                ),
          )
    ]
  ]

module _ {E V G D I T S : Type 0} ⦃ei : Eq I⦄ ⦃et : Eq T⦄ {c : StreamClass E V G D S}
    (laws : StreamLaws c) (element_of : T → E) where
  pub insert_data-IsValid :
      (got : Bool) (t : T) (i : I) (v : V) (d : D) (b : Block I T S)
      → IsValid laws element_of b
      → IsValid laws element_of (insert_data c got t i v d b).1
  insert_data-IsValid got t i v d b w = elim (Option-cases (stream_at i t b)) [
    | inl h ↦ subst (λ p. IsValid laws element_of p.1) (sym (insert_data-none c got t i v d b h)) w
    | inr (s, h) ↦ elim (Option-cases (lookup i b.block)) [
      | inl g ↦ absurd (ground (arith, h, g))
      | inr (row, g) ↦
          let k : lookup t row ≡ some s = ground (arith, h, g) in
          let n = clamp_bound b.block_sz in
          let r = Every-lookup (RowOf laws element_of b) i row b.block w.rows g in
          let q = Every-lookup (IsStream laws element_of b.datetime n) t s row r.streams k in
          let x = set_at t (c.push got v d s).1 row in
          let y =
            set_at-IsRow laws element_of b.topic_enums b.datetime n t (c.push got v d s).1 row r
              (push-IsStream laws element_of b.datetime n t got v d s q) in
          subst (λ p. IsValid laws element_of p.1) (sym (insert_data-eq c got t i v d b row s g k))
            (record {
              items = λ j. ground (arith, w.items j, lookup-set_at i j x b.block, ei.beq_iff i j);
              rows = Every-set_at (RowOf laws element_of b) i x b.block y w.rows;
            })
    ]
  ]
