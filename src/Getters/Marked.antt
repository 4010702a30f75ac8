-- ===== src/Getters/Marked.antt =====
-- src/client/client_get.cpp: the calls that read what has come into a stream since its last read.
use Prim.Native.String.{String}
use tosdata_bridge.Prelude.{ℕ, not, ◌&&◌, Option, none, List, if◌then◌else◌}
use tosdata_bridge.Prelude.Int.{ℤ, pos, to_int}
use tosdata_bridge.Prelude.Action.{Action, pure, ◌>>=◌}
use tosdata_bridge.Topics.Enum.{Topic, null_topic}
use tosdata_bridge.Topics.Map.{topic_eq, topic_of}
use tosdata_bridge.Stream.State.{StreamError}
use tosdata_bridge.Stream.Read.{Dest}
use tosdata_bridge.Client.State.{Client, error_bad_input, error_bad_topic}
use tosdata_bridge.Client.Valid.{is_valid_block_id, check_string_length}
use tosdata_bridge.Getters.Interface.{Copies, ReadClass}
use tosdata_bridge.Getters.State.{with_stream, caught, ask_stream, error_get_data}

-- `*get_size = (long)...`: the count in a `long` of 32 bits.
abbrev pub sized : {A S : Type 0} → Action S StreamError (ℤ × A) → Action S StreamError (ℤ × A)
sized m = do out ← m; pure (to_int out.0, out.1)

module _ {G D S : Type 0} (r : ReadClass G D S) where
  -- `TOSDB_GetStreamSnapshotStringsFromMarker`
  unfoldable pub tosdb_get_strings_from_marker :
      String
      → String
      → String
      → Dest
      → ℕ
      → ℕ
      → Dest
      → ℤ
      → Client S
      → (ℤ × Option (ℤ × (List (List ℕ) × List D))) × Client S
  unfolding ask_stream
  tosdb_get_strings_from_marker id item topic_str dest array_len str_len datetime beg =
      ask_stream error_get_data
        (sized ((r.strings str_len).copy_from_marker dest datetime array_len beg)) id item topic_str

  -- `TOSDB_GetNStringsFromMarker`
  unfoldable pub tosdb_get_n_strings_from_marker :
      String
      → String
      → String
      → Dest
      → ℕ
      → ℕ
      → Dest
      → Client S
      → (ℤ × Option (ℤ × (List (List ℕ) × List D))) × Client S
  unfolding ask_stream
  tosdb_get_n_strings_from_marker id item topic_str dest n str_len datetime =
      ask_stream error_get_data (sized ((r.strings str_len).ncopy_from_marker dest datetime n)) id
        item topic_str

module _ {X D S : Type 0} (k : Copies X D S) where
  -- `TOSDB_GetStreamSnapshotFromMarker_` of a topic
  unfoldable pub get_from_marker :
      String
      → String
      → Topic
      → Dest
      → ℕ
      → Dest
      → ℤ
      → Client S
      → (ℤ × Option (ℤ × (List X × List D))) × Client S
  unfolding caught with_stream
  get_from_marker id item t dest array_len datetime beg s =
      if not (is_valid_block_id id && check_string_length item)
      then ((error_bad_input, none), s)
      else caught error_get_data
          (with_stream (sized (k.copy_from_marker dest datetime array_len beg)) id item t s)

  -- `TOSDB_GetStreamSnapshotFromMarker_` of a text, which is
  -- `TOSDB_GetStreamSnapshotDoublesFromMarker` and so on; a text that is too long gives 0, with
  -- nothing written.
  unfoldable pub tosdb_get_from_marker :
      String
      → String
      → String
      → Dest
      → ℕ
      → Dest
      → ℤ
      → Client S
      → (ℤ × Option (ℤ × (List X × List D))) × Client S
  unfolding get_from_marker
  tosdb_get_from_marker id item topic_str dest array_len datetime beg s =
      if not (check_string_length topic_str)
      then ((pos 0, none), s)
      else if topic_eq.beq (topic_of topic_str) null_topic
      then ((error_bad_topic, none), s)
      else get_from_marker id item (topic_of topic_str) dest array_len datetime beg s

  -- `TOSDB_GetNFromMarker_` of a topic
  unfoldable pub get_n_from_marker :
      String
      → String
      → Topic
      → Dest
      → ℕ
      → Dest
      → Client S
      → (ℤ × Option (ℤ × (List X × List D))) × Client S
  unfolding caught with_stream
  get_n_from_marker id item t dest n datetime s =
      if not (is_valid_block_id id && check_string_length item)
      then ((error_bad_input, none), s)
      else caught error_get_data
          (with_stream (sized (k.ncopy_from_marker dest datetime n)) id item t s)

  -- `TOSDB_GetNFromMarker_` of a text, which is `TOSDB_GetNDoublesFromMarker` and so on
  unfoldable pub tosdb_get_n_from_marker :
      String
      → String
      → String
      → Dest
      → ℕ
      → Dest
      → Client S
      → (ℤ × Option (ℤ × (List X × List D))) × Client S
  unfolding get_n_from_marker
  tosdb_get_n_from_marker id item topic_str dest n datetime s =
      if not (check_string_length topic_str)
      then ((pos 0, none), s)
      else if topic_eq.beq (topic_of topic_str) null_topic
      then ((error_bad_topic, none), s)
      else get_n_from_marker id item (topic_of topic_str) dest n datetime s
