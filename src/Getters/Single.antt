-- ===== src/Getters/Single.antt =====
-- What a read of a stream through a block's pointer does to a client (src/client/client_get.cpp).
use Prim.Native.String.{String}
use tosdata_bridge.Prelude.{
  ◌≡◌, ap, ◌∙◌, ◌&&◌, Option, none, some, List, arith, Option-cases, inl, inr, if◌then◌else◌,
}
use tosdata_bridge.Prelude.Action.{ok, err, Action}
use tosdata_bridge.Prelude.Dict.{Eq, lookup, set_at, lookup-set_at}
use tosdata_bridge.Topics.Enum.{Topic}
use tosdata_bridge.Topics.Map.{topic_eq, text_eq}
use tosdata_bridge.Stream.State.{StreamError}
use tosdata_bridge.Block.State.{Block, block_error}
use tosdata_bridge.Block.Insert.{stream_at}
use tosdata_bridge.Block.Frame.{raw_stream_ptr}
use tosdata_bridge.Client.State.{TosdBlock, Client}
use tosdata_bridge.Getters.State.{doesnt_exist, raw_error, thrown, write_stream, with_stream}

-- The stream of an item and a topic in the block of a name.
abbrev pub client_stream : {S : Type 0} → String → String → Topic → Client S → Option S
client_stream id i t s = elim (lookup id s.dde_blocks) [
  | none ↦ none
  | some db ↦ stream_at i t db.block
]

module _ {I T S : Type 0} ⦃ei : Eq I⦄ ⦃et : Eq T⦄ where
  write_stream-stream_at :
      (i : I) (t : T) (p q : S) (b : Block I T S)
      → stream_at i t b ≡ some p
      → (j : I) (u : T)
      → stream_at j u (write_stream i t q b)
        ≡ (if ei.beq i j && et.beq t u then some q else stream_at j u b)
  unfolding write_stream
  write_stream-stream_at i t p q b h j u = elim (Option-cases (lookup i b.block)) [
    | inl g ↦ absurd (ground (arith, h, g))
    | inr (row, g) ↦
        let k : lookup t row ≡ some p = ground (arith, h, g) in
        ground (
          arith,
          h,
          g,
          k,
          lookup-set_at i j (set_at t q row) b.block,
          lookup-set_at t u q row,
          ei.beq_iff i j,
          et.beq_iff t u,
        )
  ]

module _ {K I T S V : Type 0} ⦃ek : Eq K⦄ ⦃ei : Eq I⦄ ⦃et : Eq T⦄ (at : I → T → V → Option S)
    (f : S → S) (k k' : K) (i j : I) (t u : T) (m : List (K × V)) where
  -- The streams of a map of blocks, and the one of them that a call is about.
  stream_of : K → I → T → Option S
  stream_of k i t = elim (lookup k m) [ none ↦ none | some v ↦ at i t v ]

  stream_of-none :
      stream_of k i t ≡ none
      → stream_of k' j u ≡ (
          if ek.beq k k' && (ei.beq i j && et.beq t u)
          then elim (stream_of k i t) [ none ↦ none | some p ↦ some (f p) ]
          else stream_of k' j u)
  unfolding stream_of
  stream_of-none h = ground (arith, h, ek.beq_iff k k', ei.beq_iff i j, et.beq_iff t u)

  stream_of-set_at :
      (v w : V) (p : S)
      → lookup k m ≡ some v
      → at i t v ≡ some p
      → at j u w ≡ (if ei.beq i j && et.beq t u then some (f p) else at j u v)
      → elim (lookup k' (set_at k w m)) [ none ↦ none | some x ↦ at j u x ] ≡ (
          if ek.beq k k' && (ei.beq i j && et.beq t u)
          then elim (stream_of k i t) [ none ↦ none | some p ↦ some (f p) ]
          else stream_of k' j u)
  unfolding stream_of
  stream_of-set_at v w p h g e = ground (arith, h, g, e, lookup-set_at k k' w m, ek.beq_iff k k')

module _ {S : Type 0} where
  raw_stream_ptr-stream_at :
      (i : String) (t : Topic) (b : Block String Topic S)
      → raw_stream_ptr i t b ≡ elim (stream_at i t b) [ none ↦ err block_error | some p ↦ ok p ]
  unfolding raw_stream_ptr
  raw_stream_ptr-stream_at i t b = ground arith

  module _ {A : Type 0} (read : Action S StreamError A) (id i : String) (t : Topic)
      (s : Client S) where
    pub with_stream-missing :
        lookup id s.dde_blocks ≡ none → with_stream read id i t s ≡ (err doesnt_exist, s)
    unfolding with_stream
    with_stream-missing h = ground (arith, h)

    pub with_stream-none :
        (db : TosdBlock S)
        → lookup id s.dde_blocks ≡ some db
        → stream_at i t db.block ≡ none
        → with_stream read id i t s ≡ (err (raw_error block_error), s)
    unfolding with_stream
    with_stream-none db h g =
        let e : raw_stream_ptr i t db.block ≡ err block_error =
          raw_stream_ptr-stream_at i t db.block ∙ ground (arith, g) in
        ground (arith, h, e)

    pub with_stream-some :
        (db : TosdBlock S) (p : S)
        → lookup id s.dde_blocks ≡ some db
        → stream_at i t db.block ≡ some p
        → with_stream read id i t s ≡ (
          thrown (read p).0,
          record s {
            dde_blocks =
                set_at id (record db { block = write_stream i t (read p).1 db.block }) s.dde_blocks;
          },
        )
    unfolding with_stream
    with_stream-some db p h g =
        let e : raw_stream_ptr i t db.block ≡ ok p =
          raw_stream_ptr-stream_at i t db.block ∙ ground (arith, g) in
        ground (arith, h, e)

    pub with_stream-client_stream :
        ((with_stream read id i t s).0 ≡ elim (lookup id s.dde_blocks) [
          | none ↦ err doesnt_exist
          | some db ↦ elim (stream_at i t db.block) [
            | none ↦ err (raw_error block_error)
            | some p ↦ thrown (read p).0
          ]
        ])
        × ((id' j : String) (u : Topic)
            → client_stream id' j u (with_stream read id i t s).1 ≡ (
                if text_eq.beq id id' && (text_eq.beq i j && topic_eq.beq t u)
                then elim (client_stream id i t s) [ none ↦ none | some p ↦ some (read p).1 ]
                else client_stream id' j u s))
    unfolding stream_of
    with_stream-client_stream = elim (Option-cases (lookup id s.dde_blocks)) [
      | inl h ↦
          let e = with_stream-missing h in
          (
            ap (λ p. p.0) e ∙ ground (arith, h),
            λ id' j u.
                ap (λ p. client_stream id' j u p.1) e
                ∙ stream_of-none (λ j u (db : TosdBlock S). stream_at j u db.block)
                    (λ p. (read p).1) id id' i j t u s.dde_blocks (ground (arith, h)),
          )
      | inr (db, h) ↦ elim (Option-cases (stream_at i t db.block)) [
        | inl g ↦
            let e = with_stream-none db h g in
            (
              ap (λ p. p.0) e ∙ ground (arith, h, g),
              λ id' j u.
                  ap (λ p. client_stream id' j u p.1) e
                  ∙ stream_of-none (λ j u (db : TosdBlock S). stream_at j u db.block)
                      (λ p. (read p).1) id id' i j t u s.dde_blocks (ground (arith, h, g)),
            )
        | inr (p, g) ↦
            let e = with_stream-some db p h g in
            let next : TosdBlock S = record db { block = write_stream i t (read p).1 db.block } in
            (
              ap (λ p. p.0) e ∙ ground (arith, h, g),
              λ id' j u.
                  ap (λ p. client_stream id' j u p.1) e
                  ∙ stream_of-set_at (λ j u (db : TosdBlock S). stream_at j u db.block)
                      (λ p. (read p).1) id id' i j t u s.dde_blocks db next p h g
                      (write_stream-stream_at i t p (read p).1 db.block g j u),
            )
      ]
    ]
