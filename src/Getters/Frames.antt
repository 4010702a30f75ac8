-- ===== src/Getters/Frames.antt =====
-- src/client/client_get.cpp: the calls that read the newest value of each stream of a topic, of an item
-- or of a block. The maps hold their entries in the order in which the block fills them; a loop over one
-- goes through them in the order of the keys, as that over a `std::map` does.
use Prim.Native.String.{String}
use tosdata_bridge.Prelude.{
  ℕ, zero, suc, Bool, not, ◌&&◌, Option, none, some, List, [], ◌∷◌, length, ltb, if◌then◌else◌,
}
use tosdata_bridge.Prelude.Int.{ℤ, pos}
use tosdata_bridge.Prelude.Action.{Result, ok, err}
use tosdata_bridge.Prelude.Text.{count_chars}
use tosdata_bridge.Prelude.Order.{in_order}
use tosdata_bridge.Topics.Enum.{Topic, null_topic}
use tosdata_bridge.Topics.Map.{topic_eq, text_eq, topic_of, text_of}
use tosdata_bridge.Block.Interface.{StreamClass}
use tosdata_bridge.Block.State.{Block, BlockError}
use tosdata_bridge.Block.Frame.{
  map_of_frame_items, pair_map_of_frame_items, map_of_frame_topics, pair_map_of_frame_topics,
  matrix_of_frame, pair_matrix_of_frame,
}
use tosdata_bridge.Client.State.{Client, error_bad_input, error_bad_topic, error_block_doesnt_exist}
use tosdata_bridge.Client.Valid.{is_valid_block_id, check_string_length}
use tosdata_bridge.Client.Query.{error_bad_input_buffer}
use tosdata_bridge.Getters.State.{
  Thrown, doesnt_exist, raw_error, invalid_call, with_block, error_get_data,
}

-- What the loops write for one entry of a map; without a pointer nothing is written.
pub record Cell (W D : Type 0) : Type 0 where
  pub value : W
  pub stamp : Option D
  pub label : Option String

-- `strcpy_s` of a label, where the size stands for the pointer, and `none` for the null pointer. What
-- ends a loop early is the code that the call then returns.
unfoldable pub write_label : Option ℕ → String → Result ℤ (Option String)
write_label none name = ok none
write_label (some str_len) name =
    if ltb (count_chars name) str_len then ok (some name) else err error_bad_input_buffer

-- The loops over a map, at most so many entries; `put` writes a value.
unfoldable pub write_frame :
    {V W D : Type 0}
    → (V → Result ℤ (W × Option D))
    → Option ℕ
    → ℕ
    → List (String × V)
    → Result ℤ (List (Cell W D))
unfolding write_label
write_frame put labels zero m = ok []
write_frame put labels (suc n) [] = ok []
write_frame put labels (suc n) ((name, v) ∷ m) = elim (put v) [
  | err e ↦ err e
  | ok w ↦ elim (write_label labels name) [
    | err e ↦ err e
    | ok l ↦ elim (write_frame put labels n m) [
      | err e ↦ err e
      | ok cells ↦ ok (record { value = w.0; stamp = w.1; label = l } ∷ cells)
    ]
  ]
]

-- A value with and without its stamp.
abbrev pub alone : {G W D : Type 0} → (G → Result ℤ W) → G → Result ℤ (W × Option D)
alone put g = elim (put g) [ err e ↦ err e | ok w ↦ ok (w, none) ]

abbrev pub with_stamp : {G W D : Type 0} → (G → Result ℤ W) → G × D → Result ℤ (W × Option D)
with_stamp put (g, d) = elim (put g) [ err e ↦ err e | ok w ↦ ok (w, some d) ]

-- `strcpy_s` of the text of a value
abbrev pub put_text : {G : Type 0} → (G → List ℕ) → ℕ → G → Result ℤ (List ℕ)
put_text text str_len g =
    if ltb (length (text g)) str_len then ok (text g) else err error_bad_input_buffer

-- The cast of a generic value, where `none` is that it throws.
abbrev pub put_cast : {G W : Type 0} → (G → Option W) → G → Result ℤ W
put_cast cast g = elim (cast g) [ none ↦ err error_get_data | some w ↦ ok w ]

-- What a call returns for a frame that is read, or not. The loop begins at the first key.
unfoldable pub write_out :
    {V W D : Type 0}
    → (V → Result ℤ (W × Option D))
    → Option ℕ
    → ℕ
    → Result Thrown (List (String × V))
    → ℤ × Option (List (Cell W D))
unfolding write_frame in_order
write_out put labels n (err doesnt_exist) = (error_block_doesnt_exist, none)
write_out put labels n (err e) = (error_get_data, none)
write_out put labels n (ok m) = elim (write_frame put labels n (in_order m)) [
  | err e ↦ (e, none)
  | ok cells ↦ (pos 0, some cells)
]

module _ {S : Type 0} where
  -- A read of the block of a name, whose errors are those of the block.
  unfoldable pub ask_frame :
      {A : Type 0}
      → (Block String Topic S → Result BlockError A)
      → String
      → Client S
      → Result Thrown A
  unfolding with_block
  ask_frame f = with_block (λ db. elim (f db.block) [ ok a ↦ ok a | err e ↦ err (raw_error e) ])

module _ {E V G D S : Type 0} (c : StreamClass E V G D S) where
  -- `TOSDB_GetItemFrame<false>` and `TOSDB_GetItemFrame<true>`
  unfoldable pub get_item_frame : String → Topic → Client S → Result Thrown (List (String × G))
  unfolding ask_frame map_of_frame_items
  get_item_frame id t s =
      if topic_eq.beq t null_topic
      then err invalid_call
      else ask_frame (map_of_frame_items c t) id s

  unfoldable pub get_item_frame_dts :
      String → Topic → Client S → Result Thrown (List (String × (G × D)))
  unfolding ask_frame pair_map_of_frame_items
  get_item_frame_dts id t s =
      if topic_eq.beq t null_topic
      then err invalid_call
      else ask_frame (pair_map_of_frame_items c t) id s

  -- `TOSDB_GetTopicFrame<false>` and `TOSDB_GetTopicFrame<true>`
  unfoldable pub get_topic_frame : String → String → Client S → Result Thrown (List (String × G))
  unfolding ask_frame map_of_frame_topics
  get_topic_frame id item = ask_frame (map_of_frame_topics c text_of item) id

  unfoldable pub get_topic_frame_dts :
      String → String → Client S → Result Thrown (List (String × (G × D)))
  unfolding ask_frame pair_map_of_frame_topics
  get_topic_frame_dts id item = ask_frame (pair_map_of_frame_topics c text_of item) id

  -- `TOSDB_GetTotalFrame<false>` and `TOSDB_GetTotalFrame<true>`
  unfoldable pub get_total_frame :
      String → Client S → Result Thrown (List (String × List (String × G)))
  unfolding ask_frame matrix_of_frame
  get_total_frame = ask_frame (matrix_of_frame c text_of)

  unfoldable pub get_total_frame_dts :
      String → Client S → Result Thrown (List (String × List (String × (G × D))))
  unfolding ask_frame pair_matrix_of_frame
  get_total_frame_dts = ask_frame (pair_matrix_of_frame c text_of)

  module _ {W : Type 0} (put : G → Result ℤ W) where
    -- The two loops over the items, with and without the stamps.
    unfoldable pub write_items :
        Bool → Option ℕ → ℕ → String → Topic → Client S → ℤ × Option (List (Cell W D))
    unfolding write_out ask_frame map_of_frame_items pair_map_of_frame_items
    write_items datetime labels array_len id t s =
        if datetime
        then write_out (with_stamp put) labels array_len
            (ask_frame (pair_map_of_frame_items c t) id s)
        else write_out (alone put) labels array_len (ask_frame (map_of_frame_items c t) id s)

    -- `TOSDB_GetItemFrame_` of a topic
    unfoldable pub get_item_frame_cells :
        String → Topic → ℕ → Option ℕ → Bool → Client S → ℤ × Option (List (Cell W D))
    unfolding write_items
    get_item_frame_cells id t array_len labels datetime s =
        if not (is_valid_block_id id)
        then (error_bad_input, none)
        else if topic_eq.beq t null_topic
        then (error_bad_topic, none)
        else write_items datetime labels array_len id t s

    -- `TOSDB_GetItemFrame_` of a text
    unfoldable pub tosdb_get_item_frame :
        String → String → ℕ → Option ℕ → Bool → Client S → ℤ × Option (List (Cell W D))
    unfolding get_item_frame_cells
    tosdb_get_item_frame id topic_str array_len labels datetime s =
        if not (check_string_length topic_str)
        then (error_bad_input, none)
        else if topic_eq.beq (topic_of topic_str) null_topic
        then (error_bad_topic, none)
        else get_item_frame_cells id (topic_of topic_str) array_len labels datetime s

  module _ (text : G → List ℕ) where
    -- `TOSDB_GetItemFrameStrings`
    unfoldable pub tosdb_get_item_frame_strings :
        String → String → ℕ → ℕ → Option ℕ → Bool → Client S → ℤ × Option (List (Cell (List ℕ) D))
    unfolding write_items
    tosdb_get_item_frame_strings id topic_str array_len str_len labels datetime s =
        if not (is_valid_block_id id && check_string_length topic_str)
        then (error_bad_input, none)
        else if topic_eq.beq (topic_of topic_str) null_topic
        then (error_bad_topic, none)
        else write_items (put_text text str_len) datetime labels array_len id (topic_of topic_str) s

    -- `TOSDB_GetTopicFrameStrings`
    unfoldable pub tosdb_get_topic_frame_strings :
        String → String → ℕ → ℕ → Option ℕ → Bool → Client S → ℤ × Option (List (Cell (List ℕ) D))
    unfolding write_out ask_frame map_of_frame_topics pair_map_of_frame_topics
    tosdb_get_topic_frame_strings id item array_len str_len labels datetime s =
        if not (is_valid_block_id id && check_string_length item)
        then (error_bad_input, none)
        else if datetime
        then write_out (with_stamp (put_text text str_len)) labels array_len
            (ask_frame (pair_map_of_frame_topics c text_of item) id s)
        else write_out (alone (put_text text str_len)) labels array_len
            (ask_frame (map_of_frame_topics c text_of item) id s)
