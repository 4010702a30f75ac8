-- ===== src/Block/Frames.antt =====
-- The frames of a valid block (src/raw_data_block.tpp).
use tosdata_bridge.Prelude.{
  ℕ, ◌≡◌, refl, ap, Bool, true, Option, none, some, List, [], ◌∷◌, arith, Option-cases, inl, inr,
}
use tosdata_bridge.Prelude.Action.{Result, ok, err}
use tosdata_bridge.Prelude.Dict.{Eq, lookup, insert, Every, Every-lookup, Every-weaken, contains}
use tosdata_bridge.Stream.State.{
  StreamError, type_error, size_violation, out_of_range, invalid_argument, std_out_of_range,
  clamp_bound,
}
use tosdata_bridge.Block.Interface.{StreamClass, StreamLaws}
use tosdata_bridge.Block.State.{Block, BlockError, wrap}
use tosdata_bridge.Block.Rows.{IsRow, IsStream}
use tosdata_bridge.Block.Invariant.{IsValid, RowOf}
use tosdata_bridge.Block.Insert.{stream_at}
use tosdata_bridge.Block.Frame.{fill, read_topic, frame_topics, frame_items, frame_matrix}

-- The value of a read that does not throw.
abbrev pub value : {E A : Type 0} → Result E A → Option A
value (ok a) = some a
value (err e) = none

-- No two keys have one image.
abbrev pub Injective : {K N : Type 0} → ⦃ek : Eq K⦄ → ⦃en : Eq N⦄ → (K → N) → Type 0
Injective {K} ⦃ek⦄ ⦃en⦄ key = (j k : K) → en.beq (key j) (key k) ≡ ek.beq j k

module _ {K X N W : Type 0} ⦃ek : Eq K⦄ ⦃en : Eq N⦄ (key : K → N)
    (read : X → Result BlockError W) where
  abbrev pub Reads : K → X → Type 0
  Reads k x = (w : W) × (read x ≡ ok w)

  -- A loop of which no read throws has, at each key, what was there or the first entry's value.
  fill-ok :
      Injective key
      → (xs : List (K × X)) (acc : List (N × W)) → Every Reads xs
      → (m : List (N × W)) × (fill key read xs acc ≡ ok m)
        × ((k : K)
            → lookup (key k) m ≡ elim (lookup (key k) acc) [
              | some w ↦ some w
              | none ↦ elim (lookup k xs) [ none ↦ none | some x ↦ value (read x) ]
            ])
  unfolding fill
  fill-ok inj [] acc a = (acc, refl, λ k. ground arith)
  fill-ok inj ((j, x) ∷ xs) acc a =
      let (w, e) = a.0 in
      let (m, f, g) = fill-ok inj xs (insert (key j) w acc) a.1 in
      (
        m,
        ground (arith, e, f),
        λ k. ground (arith, e, g k, inj j k, en.beq_iff (key j) (key k), ek.beq_iff j k),
      )

  pub fill-lookup :
      Injective key
      → (xs : List (K × X)) → Every Reads xs
      → (m : List (N × W)) × (fill key read xs [] ≡ ok m)
        × ((k : K)
            → lookup (key k) m ≡ elim (lookup k xs) [ none ↦ none | some x ↦ value (read x) ])
  fill-lookup inj xs a = fill-ok inj xs [] a

value-wrap : {W : Type 0} (r : Result StreamError W) → value (wrap r) ≡ value r
unfolding wrap
value-wrap (ok w) = refl
value-wrap (err type_error) = refl
value-wrap (err (size_violation m n)) = refl
value-wrap (err (out_of_range sz b e)) = refl
value-wrap (err invalid_argument) = refl
value-wrap (err std_out_of_range) = refl

wrap-ok : {W : Type 0} (r : Result StreamError W) (w : W) → r ≡ ok w → wrap r ≡ ok w
unfolding wrap
wrap-ok r w e = ap wrap e

module _ {E V G D T S N W : Type 0} ⦃et : Eq T⦄ ⦃en : Eq N⦄ {c : StreamClass E V G D S}
    (laws : StreamLaws c) (element_of : T → E) (name : T → N) (inj : Injective name)
    (read : S → Result StreamError W)
    (reads : (s : S) → laws.Sound s → (w : W) × (read s ≡ ok w)) where
  pub frame_topics-ok :
      (ts : List T) (d : Bool) (n : ℕ) (row : List (T × S))
      → IsRow laws element_of ts d n row
      → (m : List (N × W)) × (frame_topics name read row ≡ ok m)
        × ((t : T)
            → lookup (name t) m ≡ elim (lookup t row) [ none ↦ none | some s ↦ value (read s) ])
  unfolding frame_topics
  frame_topics-ok ts d n row r =
      let h : (t : T) (s : S)
          → IsStream laws element_of d n t s
          → (w : W) × (wrap (read s) ≡ ok w) =
        λ t s q. let (w, e) = reads s q.0 in (w, wrap-ok (read s) w e) in
      let (m, e, f) =
        fill-lookup name (λ s. wrap (read s)) inj row
          (Every-weaken (IsStream laws element_of d n) (Reads name (λ s. wrap (read s))) h row
            r.streams) in
      (
        m,
        e,
        λ t. elim (Option-cases (lookup t row)) [
          | inl g ↦ ground (arith, f t, g)
          | inr (s, g) ↦ ground (arith, f t, g, value-wrap (read s))
        ],
      )

-- The cell of a matrix.
abbrev pub cell :
    {I N W : Type 0} → ⦃ei : Eq I⦄ → ⦃en : Eq N⦄ → I → N → List (I × List (N × W)) → Option W
cell i n m = elim (lookup i m) [ none ↦ none | some r ↦ lookup n r ]

module _ {E V G D I T S W : Type 0} ⦃ei : Eq I⦄ ⦃et : Eq T⦄ {c : StreamClass E V G D S}
    (laws : StreamLaws c) (element_of : T → E) (read : S → Result StreamError W)
    (reads : (s : S) → laws.Sound s → (w : W) × (read s ≡ ok w)) where
  pub frame_matrix-cell :
      {N : Type 0} ⦃en : Eq N⦄ (name : T → N)
      → Injective name
      → (b : Block I T S) → IsValid laws element_of b
      → (m : List (I × List (N × W))) × (frame_matrix name read b.block ≡ ok m)
        × ((i : I) (t : T)
            → cell i (name t) m ≡ elim (stream_at i t b) [ none ↦ none | some s ↦ value (read s) ])
  unfolding frame_matrix
  frame_matrix-cell name inj b v =
      let row_ok =
        frame_topics-ok laws element_of name inj read reads b.topic_enums b.datetime
          (clamp_bound b.block_sz) in
      let h : (i : I) (row : List (T × S))
          → RowOf laws element_of b i row
          → Reads (λ (j : I). j) (frame_topics name read) i row =
        λ i row r. let (w, e, f) = row_ok row r in (w, e) in
      let (m, e, f) =
        fill-lookup (λ (i : I). i) (frame_topics name read) (λ j k. refl) b.block
          (Every-weaken (RowOf laws element_of b) (Reads (λ (i : I). i) (frame_topics name read)) h
            b.block v.rows) in
      (
        m,
        e,
        λ i t. elim (Option-cases (lookup i b.block)) [
          | inl g ↦ ground (arith, f i, g)
          | inr (row, g) ↦
              let (r, p, q) =
                row_ok row (Every-lookup (RowOf laws element_of b) i row b.block v.rows g) in
              ground (arith, f i, g, p, q t)
        ],
      )

  read_topic-ok :
      (b : Block I T S) (t : T)
      → contains t b.topic_enums ≡ true
      → (i : I) (row : List (T × S)) → RowOf laws element_of b i row
      → (s : S) × (w : W) × (lookup t row ≡ some s)
        × (read s ≡ ok w)
        × (read_topic read t row ≡ ok w)
  unfolding read_topic
  read_topic-ok b t h i row r = elim (Option-cases (lookup t row)) [
    | inl g ↦ absurd (ground (arith, r.topics t, g, h))
    | inr (s, g) ↦
        let q =
          Every-lookup (IsStream laws element_of b.datetime (clamp_bound b.block_sz)) t s row
            r.streams g in
        let (w, e) = reads s q.0 in (s, w, g, e, ground (arith, g, wrap-ok (read s) w e))
  ]

  pub frame_items-lookup :
      (b : Block I T S) (t : T)
      → IsValid laws element_of b
      → contains t b.topic_enums ≡ true
      → (m : List (I × W)) × (frame_items read t b.block ≡ ok m)
        × ((i : I) → lookup i m ≡ elim (stream_at i t b) [ none ↦ none | some s ↦ value (read s) ])
  unfolding frame_items
  frame_items-lookup b t v c =
      let h : (i : I) (row : List (T × S))
          → RowOf laws element_of b i row
          → Reads (λ (j : I). j) (read_topic read t) i row =
        λ i row r. let (s, w, g, e, f) = read_topic-ok b t c i row r in (w, f) in
      let (m, e, f) =
        fill-lookup (λ (i : I). i) (read_topic read t) (λ j k. refl) b.block
          (Every-weaken (RowOf laws element_of b) (Reads (λ (i : I). i) (read_topic read t)) h
            b.block v.rows) in
      (
        m,
        e,
        λ i. elim (Option-cases (lookup i b.block)) [
          | inl g ↦ ground (arith, f i, g)
          | inr (row, g) ↦
              let (s, w, k, p, q) =
                read_topic-ok b t c i row
                  (Every-lookup (RowOf laws element_of b) i row b.block v.rows g) in
              ground (arith, f i, g, k, p, q)
        ],
      )
