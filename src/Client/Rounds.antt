-- ===== src/Client/Rounds.antt =====
-- A round of the thread that reads the buffers (src/client/client_admin.cpp, `_threadedExtractLoop`)
-- keeps the streams of the blocks and who the buffers are read for.
use Prim.Native.String.{String}
use tosdata_bridge.Prelude.{
  ℕ, ◌+◌, ◌≡◌, refl, sym, ap, ◌∙◌, Bool, true, false, ◌&&◌, Option, none, some, List, [], ◌∷◌,
  length, map, arith, if◌then◌else◌, Option-cases, inl, inr,
}
use tosdata_bridge.Prelude.Action.{Result, ok, err}
use tosdata_bridge.Prelude.Dict.{Eq, lookup, set_at, contains, Every, lookup-set_at}
use tosdata_bridge.Prelude.Table.{pair_eq}
use tosdata_bridge.Topics.Enum.{Topic, topic_value, ElementType, element_type}
use tosdata_bridge.Topics.Map.{topic_eq, text_eq}
use tosdata_bridge.Block.Interface.{StreamClass}
use tosdata_bridge.Block.State.{Block, BlockError, insert_data}
use tosdata_bridge.Shared.State.{BufferError, Reader, extract_from_buffer}
use tosdata_bridge.Client.State.{TosdBlock, Buffers, Client}
use tosdata_bridge.Client.Holders.{read_for, holds, IsRead}
use tosdata_bridge.Client.Safety.{has, IsSafe}
use tosdata_bridge.Client.Extract.{
  Blocks, Found, ExtractError, raw_error, buffer_error, insert_into, insert_elems,
  extract_into_blocks, extract_round, read_buffers,
}

module _ {E V G D I T S : Type 0} ⦃ei : Eq I⦄ ⦃et : Eq T⦄ (c : StreamClass E V G D S) (got : Bool)
    (t : T) (i : I) (v : V) (d : D) (b : Block I T S) where
  insert_data-names :
      ((insert_data c got t i v d b).1.item_names ≡ b.item_names)
      × ((insert_data c got t i v d b).1.topic_enums ≡ b.topic_enums)
  unfolding insert_data
  insert_data-names = elim (Option-cases (lookup i b.block)) [
    | inl h ↦ (ground (arith, h), ground (arith, h))
    | inr (row, h) ↦ elim (Option-cases (lookup t row)) [
      | inl g ↦ (ground (arith, h, g), ground (arith, h, g))
      | inr (s, g) ↦ (ground (arith, h, g), ground (arith, h, g))
    ]
  ]

-- A test of the entry of a key that is replaced by one for which it gives the same.
test_put :
    {K V : Type 0}
    → ⦃ek : Eq K⦄ → (test : V → Bool) (k j : K) (v w : V) (m : List (K × V)) → lookup k m ≡ some v
    → test w ≡ test v
    → elim (lookup j (set_at k w m)) [ none ↦ false | some x ↦ test x ]
      ≡ elim (lookup j m) [ none ↦ false | some x ↦ test x ]
test_put ⦃ek⦄ test k j v w m h g = ground (arith, h, g, lookup-set_at k j w m, ek.beq_iff k j)

-- The end of a loop, which a throw ends.
module _ {S : Type 0} (P : Blocks S → Type 0) where
  after_insert :
      (r : Result BlockError (Unit {0})) (next : Blocks S)
      (rest : Result ExtractError (Unit {0}) × Blocks S)
      → P next
      → P rest.1
      → let after : Result ExtractError (Unit {0}) × Blocks S = elim r [
        | err e ↦ (err (raw_error e), next)
        | ok u ↦ rest
      ] in
        P after.1
  after_insert (err e) next rest h g = h
  after_insert (ok u) next rest h g = g

  after_elem :
      (r : Result ExtractError (Unit {0})) (next : Blocks S)
      (rest : Result ExtractError (Unit {0}) × Blocks S)
      → P next
      → P rest.1
      → let after : Result ExtractError (Unit {0}) × Blocks S = elim r [
        | err e ↦ (err e, next)
        | ok u ↦ rest
      ] in
        P after.1
  after_elem (err e) next rest h g = h
  after_elem (ok u) next rest h g = g

  after_elems :
      (r next : Reader) (q : Result ExtractError (Unit {0}) × Blocks S)
      → P q.1
      → let after : Result ExtractError (Unit {0}) × (Reader × Blocks S) = elim q.0 [
        | err e ↦ (err e, (r, q.1))
        | ok u ↦ (ok tt, (next, q.1))
      ] in
        P after.1.1
  after_elems r next (err e, bs) h = h
  after_elems r next (ok u, bs) h = h

-- The buffers are read for the same blocks.
record SameReads (bs bs' : Buffers) : Type 0 where
  readers : (k : String) (u : Topic) (j : String) → holds k u j bs' ≡ holds k u j bs
  still_read : Every IsRead bs → Every IsRead bs'

same_read :
    (hit : Bool) (k : String) (r r' : Reader) (ids : List String)
    (o o' : Option (Reader × List String))
    → read_for k o' ≡ read_for k o
    → read_for k (if hit then some (r', ids) else o')
      ≡ read_for k (if hit then some (r, ids) else o)
same_read true k r r' ids o o' h = refl
same_read false k r r' ids o o' h = h

same_reads :
    (t : Topic) (i : String) (r r' : Reader) (ids : List String) (rest rest' : Buffers)
    → SameReads rest rest'
    → SameReads (((t, i), (r, ids)) ∷ rest) (((t, i), (r', ids)) ∷ rest')
same_reads t i r r' ids rest rest' w = record {
  readers = λ k u j.
      same_read (pair_eq.beq (t, i) (u, j)) k r r' ids (lookup (u, j) rest) (lookup (u, j) rest')
        (w.readers k u j);
  still_read = λ h. (h.0, w.still_read h.1);
}

-- What every insertion into a block keeps, a round of the thread keeps.
module _ {E V G D S : Type 0} (c : StreamClass E V G D S) (P : Blocks S → Type 0)
    (keeps : (got : Bool) (t : Topic) (i : String) (v : V) (d : D) (id : String) (db : TosdBlock S)
        (blocks : Blocks S)
      → lookup id blocks ≡ some db
      → P blocks
      → P (set_at id (record db { block = (insert_data c got t i v d db.block).1 }) blocks)) where
  insert_into-keeps :
      (got : String → Bool) (t : Topic) (i : String) (x : V × D) (ids : List String)
      (blocks : Blocks S)
      → P blocks
      → P (insert_into c got t i x ids blocks).1
  unfolding insert_into
  insert_into-keeps got t i x [] blocks h = h
  insert_into-keeps got t i x (id ∷ ids) blocks h = elim (Option-cases (lookup id blocks)) [
    | inl g ↦ rw (insert_into, g) h
    | inr (db, g) ↦
        let p = insert_data c (got id) t i x.0 x.1 db.block in
        let w : TosdBlock S = record db { block = p.1 } in
        let next = set_at id w blocks in
        let kept = keeps (got id) t i x.0 x.1 id db blocks g h in
        rw (insert_into, g)
          (after_insert P p.0 next (insert_into c got t i x ids next) kept
            (insert_into-keeps got t i x ids next kept))
  ]

  insert_elems-keeps :
      (got : ℕ → String → Bool) (t : Topic) (i : String) (ids : List String) (xs : List (V × D))
      (blocks : Blocks S)
      → P blocks
      → P (insert_elems c got t i ids xs blocks).1
  unfolding insert_elems
  insert_elems-keeps got t i ids [] blocks h = h
  insert_elems-keeps got t i ids (x ∷ xs) blocks h =
      let p = insert_into c (got (length xs + 1)) t i x ids blocks in
      let kept = insert_into-keeps (got (length xs + 1)) t i x ids blocks h in
      after_elem P p.0 p.1 (insert_elems c got t i ids xs p.1) kept
        (insert_elems-keeps got t i ids xs p.1 kept)

  module _ {X : Type 0} where
    extract_into_blocks-keeps :
        (cast : X → V × D) (t : Topic) (i : String) (found : Found X) (r : Reader)
        (ids : List String) (blocks : Blocks S)
        → P blocks
        → P (extract_into_blocks c cast t i found (r, ids) blocks).1.1
    unfolding extract_into_blocks
    extract_into_blocks-keeps cast t i found r ids blocks h =
        after_read (extract_from_buffer found.busy r found.buffer)
      where
        after_read :
            (p : Result BufferError (List X) × Reader)
            → let after : Result ExtractError (Unit {0}) × (Reader × Blocks S) = elim p.0 [
              | err e ↦ (err buffer_error, (r, blocks))
              | ok xs ↦
                  let (res, bs) = insert_elems c found.got t i ids (map cast xs) blocks in
                  elim res [ err e ↦ (err e, (r, bs)) | ok u ↦ (ok tt, (p.1, bs)) ]
            ] in
              P after.1.1
        after_read (err e, next) = h
        after_read (ok xs, next) =
            after_elems P r next (insert_elems c found.got t i ids (map cast xs) blocks)
              (insert_elems-keeps found.got t i ids (map cast xs) blocks h)

    extract_round-keeps :
        (cast : ElementType → X → V × D) (found : Topic → String → Found X) (bs : Buffers)
        (blocks : Blocks S)
        → P blocks
        → let p = extract_round c cast found bs blocks in P p.1.1 × SameReads bs p.1.0
    unfolding extract_round
    extract_round-keeps cast found [] blocks h =
        (h, record { readers = λ k u j. refl; still_read = λ h. h })
    extract_round-keeps cast found (((t, i), (r, ids)) ∷ rest) blocks h =
        let as_type = cast (element_type (topic_value t)) in
        let p = extract_into_blocks c as_type t i (found t i) (r, ids) blocks in
        let kept = extract_into_blocks-keeps as_type t i (found t i) r ids blocks h in
        after_buffer p kept (extract_round-keeps cast found rest p.1.1 kept)
      where
        after_buffer :
            (p : Result ExtractError (Unit {0}) × (Reader × Blocks S))
            → P p.1.1
            → (let q = extract_round c cast found rest p.1.1 in P q.1.1 × SameReads rest q.1.0)
            → let q = extract_round c cast found rest p.1.1 in
              let all : Result ExtractError (Unit {0}) × (Buffers × Blocks S) = elim p.0 [
                | err e ↦ (err e, (((t, i), (p.1.0, ids)) ∷ rest, p.1.1))
                | ok u ↦ (q.0, (((t, i), (p.1.0, ids)) ∷ q.1.0, q.1.1))
              ] in
              P all.1.1 × SameReads (((t, i), (r, ids)) ∷ rest) all.1.0
        after_buffer (err e, (next, after)) h w = (
          h,
          same_reads t i r next ids rest rest
              (record { readers = λ k u j. refl; still_read = λ h. h }),
        )
        after_buffer (ok v, (next, after)) h w =
            let q = extract_round c cast found rest after in
            (w.0, same_reads t i r next ids rest q.1.0 w.1)

    pub read_buffers-keeps :
        (cast : ElementType → X → V × D) (found : Topic → String → Found X) (s : Client S)
        → P s.dde_blocks
        → P (read_buffers c cast found s).1.dde_blocks
    unfolding read_buffers
    read_buffers-keeps cast found s h = (extract_round-keeps cast found s.buffers s.dde_blocks h).0

-- The blocks have the same streams.
abbrev SameStreams : {S : Type 0} → Blocks S → Blocks S → Type 0
SameStreams before after =
    (id : String) (t : Topic) (i : String) → has id t i after ≡ has id t i before

module _ {E V G D S X : Type 0} (c : StreamClass E V G D S) (cast : ElementType → X → V × D)
    (found : Topic → String → Found X) where
  insert_data-SameStreams :
      (before : Blocks S) (got : Bool) (t : Topic) (i : String) (v : V) (d : D) (id : String)
      (db : TosdBlock S) (blocks : Blocks S)
      → lookup id blocks ≡ some db
      → SameStreams before blocks
      → SameStreams before
          (set_at id (record db { block = (insert_data c got t i v d db.block).1 }) blocks)
  insert_data-SameStreams before got t i v d id db blocks g h k u j =
      let w : TosdBlock S = record db { block = (insert_data c got t i v d db.block).1 } in
      let names = insert_data-names c got t i v d db.block in
      test_put
        (λ (b : TosdBlock S). contains j b.block.item_names && contains u b.block.topic_enums) id k
        db w blocks g (ground (arith, ap (contains j) names.0, ap (contains u) names.1))
      ∙ h k u j

  pub read_buffers-IsSafe : (s : Client S) → IsSafe s → IsSafe (read_buffers c cast found s).1
  unfolding read_buffers
  read_buffers-IsSafe s v =
      let (streams, w) =
        extract_round-keeps c (SameStreams s.dde_blocks) (insert_data-SameStreams s.dde_blocks) cast
          found s.buffers s.dde_blocks (λ id t i. refl) in
      record {
        live = λ id t i h. streams id t i ∙ v.live id t i (sym (w.readers id t i) ∙ h);
        all_read = w.still_read v.all_read;
      }
