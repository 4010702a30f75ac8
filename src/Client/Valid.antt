-- ===== src/Client/Valid.antt =====
-- src/main.cpp: which names of blocks, items and sizes the client accepts.
use Prim.Native.Char.{Char, code}
use Prim.Native.String.{String}
use tosdata_bridge.Prelude.{
  ℕ, suc, ◌≤◌, ◌≡◌, refl, Bool, true, false, not, ◌&&◌, ◌||◌, List, [], ◌∷◌, ltb, leb, arith, ◌==◌,
}
use tosdata_bridge.Prelude.Dict.{nat_eq, contains}
use tosdata_bridge.Prelude.Text.{count_chars}
use tosdata_bridge.Topics.Map.{text_eq}
use tosdata_bridge.Block.State.{max_block_sz}
use tosdata_bridge.Ipc.Args.{IsWord, has_no_space}
use tosdata_bridge.Ipc.Exchange.{max_str_sz}

-- `isalnum`
abbrev pub is_alnum : ℕ → Bool
is_alnum c = leb 48 c && leb c 57 || leb 65 c && leb c 90 || leb 97 c && leb c 122

-- `ITEM_VALID_START_CHARS`: - + . $ / #
abbrev pub item_valid_start_chars : List ℕ
item_valid_start_chars = 45 ∷ 43 ∷ 46 ∷ 36 ∷ 47 ∷ 35 ∷ []

-- `ITEM_VALID_MID_CHARS`: - . * + : $ / #
abbrev pub item_valid_mid_chars : List ℕ
item_valid_mid_chars = 45 ∷ 46 ∷ 42 ∷ 43 ∷ 58 ∷ 36 ∷ 47 ∷ 35 ∷ []

-- `ITEM_VALID_END_CHARS`: . $ #
abbrev pub item_valid_end_chars : List ℕ
item_valid_end_chars = 46 ∷ 36 ∷ 35 ∷ []

-- `_isValidItemChar`
abbrev pub is_valid_item_char : Char → List ℕ → Bool
is_valid_item_char c others = is_alnum (code c) || contains (code c) others

-- `CheckStringLength`
abbrev pub check_string_length : String → Bool
check_string_length s = leb (count_chars s) max_str_sz

-- `TOSDB_MAX_NSTRS`
abbrev pub max_nstrs : ℕ
max_nstrs = 1000

abbrev pub all_lengths : List String → Bool
all_lengths [] = true
all_lengths (s ∷ strs) = check_string_length s && all_lengths strs

abbrev pub count_strs : List String → ℕ
count_strs [] = 0
count_strs (s ∷ strs) = suc (count_strs strs)

-- `CheckStringLengths`
unfoldable pub check_string_lengths : List String → Bool
check_string_lengths strs = leb (count_strs strs) max_nstrs && all_lengths strs

-- The characters of `IsValidItemString` behind the first, of which `c` is the next.
abbrev pub valid_rest : Char → String → Bool
valid_rest c String.[] = is_valid_item_char c item_valid_end_chars
valid_rest c (String.◌∷◌ d s) = is_valid_item_char c item_valid_mid_chars && valid_rest d s

-- The loop over the characters; the first is also the last where there is no other.
abbrev pub valid_chars : String → Bool
valid_chars String.[] = false
valid_chars (String.◌∷◌ c String.[]) =
    is_valid_item_char c item_valid_start_chars && is_valid_item_char c item_valid_end_chars
valid_chars (String.◌∷◌ c (String.◌∷◌ d s)) =
    is_valid_item_char c item_valid_start_chars && valid_rest d s

-- `IsValidItemString`
unfoldable pub is_valid_item_string : String → Bool
is_valid_item_string s = check_string_length s && valid_chars s

-- `TOSDB_BLOCK_ID_SZ` and `TOSDB_RESERVED_BLOCK_NAME`
abbrev pub block_id_sz : ℕ
block_id_sz = 63

abbrev pub reserved_block_name : String
reserved_block_name = "___RESERVED_BLOCK_NAME___"

-- `IsValidBlockID`, with `CheckIDLength`
unfoldable pub is_valid_block_id : String → Bool
is_valid_block_id id = leb (count_chars id) block_id_sz && not (text_eq.beq id reserved_block_name)

-- `IsValidBlockSize`
unfoldable pub is_valid_block_size : ℕ → Bool
is_valid_block_size sz = not (ltb sz 1) && not (ltb max_block_sz sz)

contains-other :
    (a b : ℕ) (l : List ℕ) → contains b l ≡ false → contains a l ≡ true → (a == b) ≡ false
contains-other a b [] h k = cc
contains-other a b (x ∷ l) h k = ground (arith, contains-other a b l)

not_space :
    (c : Char) (others : List ℕ)
    → contains 32 others ≡ false
    → is_valid_item_char c others ≡ true
    → (code c == 32) ≡ false
not_space c others h k = ground (arith, contains-other (code c) 32 others h)

valid_rest-has_no_space :
    (c : Char) (s : String) → valid_rest c s ≡ true → has_no_space (String.◌∷◌ c s) ≡ true
valid_rest-has_no_space c String.[] h = ground (arith, not_space c item_valid_end_chars refl)
valid_rest-has_no_space c (String.◌∷◌ d s) h =
    ground (arith, not_space c item_valid_mid_chars refl, valid_rest-has_no_space d s)

valid_chars-IsWord : (s : String) → valid_chars s ≡ true → IsWord s
valid_chars-IsWord String.[] h = cc
valid_chars-IsWord (String.◌∷◌ c String.[]) h =
    (refl, ground (arith, not_space c item_valid_start_chars refl))
valid_chars-IsWord (String.◌∷◌ c (String.◌∷◌ d s)) h =
    (refl, ground (arith, not_space c item_valid_start_chars refl, valid_rest-has_no_space d s))

-- An item that `IsValidItemString` accepts has no space, is not empty and has at most 255
-- characters.
pub is_valid_item_string-IsWord :
    (s : String) → is_valid_item_string s ≡ true → IsWord s × (count_chars s ≤ max_str_sz)
unfolding is_valid_item_string
is_valid_item_string-IsWord s h = (valid_chars-IsWord s (ground (arith, h)), ground (arith, h))
