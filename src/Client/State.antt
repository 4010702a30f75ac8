-- ===== src/Client/State.antt =====
-- src/client/client_admin.cpp: the client's blocks and buffers. The sets are ordered in the source and
-- in the order of insertion here; the order is that of the requests to the engine, which stand for
-- any. A pointer to a block is the name of the block: a block keeps its name as long as it exists.
use Prim.Native.String.{String}
use tosdata_bridge.Prelude.{
  ℕ, ◌+◌, Bool, Option, none, some, List, [], ◌∷◌, is_nil, ◌==◌, if◌then◌else◌,
}
use tosdata_bridge.Prelude.Int.{ℤ, pos, negsuc}
use tosdata_bridge.Prelude.Dict.{Eq, lookup, insert, erase, set_at, contains, remove}
use tosdata_bridge.Prelude.Table.{pair_eq}
use tosdata_bridge.Topics.Enum.{Topic}
use tosdata_bridge.Topics.Map.{topic_eq, text_eq}
use tosdata_bridge.Block.State.{Block, BlockError}
use tosdata_bridge.Block.Limit.{Registry}
use tosdata_bridge.Shared.State.{Reader, new_reader}

-- `TOSDBlock`
pub record TosdBlock (S : Type 0) : Type 0 where
  pub timeout : ℕ
  pub block : Block String Topic S
  pub item_precache : List String
  pub topic_precache : List Topic

-- `buffers_ty`: for each stream that is read, how far it is, and the blocks that it is read for.
abbrev pub Buffers : Type 0
Buffers = List ((Topic × String) × (Reader × List String))

pub record Client (S : Type 0) : Type 0 where
  pub dde_blocks : List (String × TosdBlock S)
  pub buffers : Buffers
  pub registry : Registry

-- What is thrown.
pub data ClientError : Type 0 where
  buffer_error : ClientError
  raw_error : BlockError → ClientError

-- What lies behind the client: `ask` is `_requestStreamOP`, with the timeout and the opcode, and
-- `opens` says whether the buffer of a stream can be opened.
pub record Outside (W : Type 0) : Type 0 where
  pub ask : Topic → String → ℕ → ℕ → W → ℤ × W
  pub opens : Topic → String → W → Bool

abbrev pub add_name : {A : Type 0} → ⦃e : Eq A⦄ → A → List A → List A
add_name a s = if contains a s then s else a ∷ s

-- `_captureBuffer`; `none` is that it throws.
unfoldable pub capture_buffer : Topic → String → String → Bool → Buffers → Option Buffers
capture_buffer t item id opened bs = elim (lookup (t, item) bs) [
  | some (r, ids) ↦ some (set_at (t, item) (r, add_name id ids) bs)
  | none ↦ if opened then some (insert (t, item) (new_reader, id ∷ []) bs) else none
]

-- `_releaseBuffer`
unfoldable pub release_buffer : Topic → String → String → Buffers → Buffers
release_buffer t item id bs = elim (lookup (t, item) bs) [
  | none ↦ bs
  | some (r, ids) ↦
      if is_nil (remove id ids) then erase (t, item) bs else set_at (t, item) (r, remove id ids) bs
]

-- `std::set_union` and `std::set_difference`
abbrev pub set_union : {A : Type 0} → ⦃e : Eq A⦄ → List A → List A → List A
set_union [] s = s
set_union (a ∷ rest) s = add_name a (set_union rest s)

abbrev pub set_difference : {A : Type 0} → ⦃e : Eq A⦄ → List A → List A → List A
set_difference [] s = []
set_difference (a ∷ rest) s =
    if contains a s then set_difference rest s else a ∷ set_difference rest s

-- `TOSDB_ERROR_...`
abbrev pub error_bad_input : ℤ
error_bad_input = negsuc 0

abbrev pub error_block_already_exists : ℤ
error_block_already_exists = negsuc 4

abbrev pub error_block_doesnt_exist : ℤ
error_block_doesnt_exist = negsuc 5

abbrev pub error_block_creation : ℤ
error_block_creation = negsuc 6

abbrev pub error_block_size : ℤ
error_block_size = negsuc 7

abbrev pub error_bad_topic : ℤ
error_bad_topic = negsuc 8

abbrev pub error_bad_item : ℤ
error_bad_item = negsuc 9

-- `TOSDB_ERROR_DECREMENT_BASE`, counted down once for each request that failed.
abbrev pub code_of : ℕ → ℤ
code_of n = if n == 0 then pos 0 else negsuc (24 + n)
