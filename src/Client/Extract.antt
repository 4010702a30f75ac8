-- ===== src/Client/Extract.antt =====
-- src/client/client_admin.cpp, the thread that reads the buffers: `_extractFromBuffer`, which inserts what
-- is new in a buffer into the blocks that the buffer is read for, and a round of `_threadedExtractLoop`
-- over all buffers. What `try_lock` answers to a push is a function of the number of elements that are
-- left and of the block.
use Prim.Native.String.{String}
use tosdata_bridge.Prelude.{ℕ, ◌+◌, Bool, none, some, List, [], ◌∷◌, map, length}
use tosdata_bridge.Prelude.Action.{Result, ok, err}
use tosdata_bridge.Prelude.Dict.{lookup, set_at}
use tosdata_bridge.Topics.Enum.{Topic, topic_value, ElementType, element_type}
use tosdata_bridge.Topics.Map.{topic_eq, text_eq}
use tosdata_bridge.Block.Interface.{StreamClass}
use tosdata_bridge.Block.State.{BlockError, insert_data}
use tosdata_bridge.Shared.State.{Buffer, Reader, extract_from_buffer}
use tosdata_bridge.Client.State.{TosdBlock, Buffers, Client}

-- What is thrown, out of the thread. A pointer to a block that no longer exists has no meaning in the
-- source; it is an error of its own here.
pub data ExtractError : Type 0 where
  buffer_error : ExtractError
  raw_error : BlockError → ExtractError
  no_block : ExtractError

-- The blocks by their names.
abbrev pub Blocks : Type 0 → Type 0
Blocks S = List (String × TosdBlock S)

-- What the thread finds of a buffer: the memory, the answer of `WaitForSingleObject`, and those of
-- `try_lock`.
pub record Found (X : Type 0) : Type 0 where
  pub buffer : Buffer X
  pub busy : Bool
  pub got : ℕ → String → Bool

module _ {E V G D S : Type 0} (c : StreamClass E V G D S) where
  -- The loop over the blocks, for one element.
  unfoldable pub insert_into :
      (String → Bool)
      → Topic
      → String
      → V × D
      → List String
      → Blocks S
      → Result ExtractError (Unit {0}) × Blocks S
  unfolding insert_data
  insert_into got t i x [] blocks = (ok tt, blocks)
  insert_into got t i x (id ∷ ids) blocks = elim (lookup id blocks) [
    | none ↦ (err no_block, blocks)
    | some db ↦
        let (r, b) = insert_data c (got id) t i x.0 x.1 db.block in
        let next = set_at id (record db { block = b }) blocks in
        elim r [ err e ↦ (err (raw_error e), next) | ok u ↦ insert_into got t i x ids next ]
  ]

  -- The loop over the elements, last first.
  unfoldable pub insert_elems :
      (ℕ → String → Bool)
      → Topic
      → String
      → List String
      → List (V × D)
      → Blocks S
      → Result ExtractError (Unit {0}) × Blocks S
  unfolding insert_into
  insert_elems got t i ids [] blocks = (ok tt, blocks)
  insert_elems got t i ids (x ∷ xs) blocks =
      let (r, next) = insert_into (got (length xs + 1)) t i x ids blocks in
      elim r [ err e ↦ (err e, next) | ok u ↦ insert_elems got t i ids xs next ]

  module _ {X : Type 0} where
    -- `_extractFromBuffer`, where `cast` is `_castToVal` with the stamp behind the value.
    unfoldable pub extract_into_blocks :
        (X → V × D)
        → Topic
        → String
        → Found X
        → Reader × List String
        → Blocks S
        → Result ExtractError (Unit {0}) × (Reader × Blocks S)
    unfolding insert_elems extract_from_buffer
    extract_into_blocks cast t i found (r, ids) blocks =
        let (out, next) = extract_from_buffer found.busy r found.buffer in
        elim out [
          | err e ↦ (err buffer_error, (r, blocks))
          | ok xs ↦
              let (res, after) = insert_elems found.got t i ids (map cast xs) blocks in
              elim res [ err e ↦ (err e, (r, after)) | ok u ↦ (ok tt, (next, after)) ]
        ]

    -- A round of `_threadedExtractLoop`: all buffers, each with the type of its topic.
    unfoldable pub extract_round :
        (ElementType → X → V × D)
        → (Topic → String → Found X)
        → Buffers
        → Blocks S
        → Result ExtractError (Unit {0}) × (Buffers × Blocks S)
    unfolding extract_into_blocks
    extract_round cast found [] blocks = (ok tt, ([], blocks))
    extract_round cast found (((t, i), (r, ids)) ∷ rest) blocks =
        let (res, (next, after)) =
          extract_into_blocks (cast (element_type (topic_value t))) t i (found t i) (r, ids)
            blocks in
        elim res [
          | err e ↦ (err e, (((t, i), (next, ids)) ∷ rest, after))
          | ok u ↦
              let (res', (rest', after')) = extract_round cast found rest after in
              (res', (((t, i), (next, ids)) ∷ rest', after'))
        ]

    -- A round, on the client.
    unfoldable pub read_buffers :
        (ElementType → X → V × D)
        → (Topic → String → Found X)
        → Client S
        → Result ExtractError (Unit {0}) × Client S
    unfolding extract_round
    read_buffers cast found s =
        let (res, (bs, after)) = extract_round cast found s.buffers s.dde_blocks in
        (res, record s { dde_blocks = after; buffers = bs })
