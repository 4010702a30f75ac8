-- ===== src/Getters/Values.antt =====
-- src/client/client_get.cpp: the calls that read one value of a stream.
use Prim.Native.String.{String}
use tosdata_bridge.Prelude.{ℕ, not, ◌&&◌, Option, none, some, List, if◌then◌else◌}
use tosdata_bridge.Prelude.Int.{ℤ, pos, eqb_ℤ}
use tosdata_bridge.Prelude.Action.{Result, ok, err}
use tosdata_bridge.Topics.Enum.{Topic, null_topic}
use tosdata_bridge.Topics.Map.{topic_eq, topic_of}
use tosdata_bridge.Stream.Read.{Dest, buffer}
use tosdata_bridge.Client.State.{Client, error_bad_input, error_bad_topic}
use tosdata_bridge.Client.Valid.{is_valid_block_id, check_string_length}
use tosdata_bridge.Getters.Interface.{Copies, ReadClass}
use tosdata_bridge.Getters.State.{
  Thrown, invalid_call, get_error, with_stream, caught, ask_stream, read_or_throw, error_get_data,
}

module _ {G D S : Type 0} (r : ReadClass G D S) where
  -- `TOSDB_Get<generic_type, false>` and `TOSDB_Get<generic_type, true>`
  unfoldable pub get_generic : String → String → Topic → ℤ → Client S → Result Thrown G × Client S
  unfolding read_or_throw
  get_generic id item t indx = read_or_throw (r.get indx) id item t

  unfoldable pub get_generic_dts :
      String → String → Topic → ℤ → Client S → Result Thrown (G × D) × Client S
  unfolding read_or_throw
  get_generic_dts id item t indx = read_or_throw (r.both indx) id item t

  -- `TOSDB_GetString`; what is given to the stream is the address of the pointer, so it is not null.
  unfoldable pub tosdb_get_string :
      String
      → String
      → String
      → ℤ
      → ℕ
      → Dest
      → Client S
      → (ℤ × Option (ℕ × (List (List ℕ) × List D))) × Client S
  unfolding ask_stream
  tosdb_get_string id item topic_str indx str_len datetime =
      ask_stream error_get_data ((r.strings str_len).copy buffer datetime 1 indx indx) id item
        topic_str

module _ {X D S : Type 0} (k : Copies X D S) where
  -- `TOSDB_Get_` of a topic; `dest` and `datetime` are the pointers.
  unfoldable pub get_value :
      String
      → String
      → Topic
      → ℤ
      → Dest
      → Dest
      → Client S
      → (ℤ × Option (ℕ × (List X × List D))) × Client S
  unfolding caught with_stream
  get_value id item t indx dest datetime s =
      caught error_get_data (with_stream (k.copy dest datetime 1 indx indx) id item t s)

  -- `TOSDB_Get_` of a text, which is `TOSDB_GetDouble`, `TOSDB_GetFloat`, `TOSDB_GetLongLong` and
  -- `TOSDB_GetLong` for the copies into an array of that type.
  unfoldable pub tosdb_get :
      String
      → String
      → String
      → ℤ
      → Dest
      → Dest
      → Client S
      → (ℤ × Option (ℕ × (List X × List D))) × Client S
  unfolding get_value
  tosdb_get id item topic_str indx dest datetime s =
      if not (is_valid_block_id id && check_string_length item && check_string_length topic_str)
      then ((error_bad_input, none), s)
      else if topic_eq.beq (topic_of topic_str) null_topic
      then ((error_bad_topic, none), s)
      else get_value id item (topic_of topic_str) indx dest datetime s

  -- `TOSDB_Get<T, b>`, which gives the stamp if `b` is true; the error code is lost.
  unfoldable pub get_typed :
      String → String → Topic → ℤ → Client S → Result Thrown (List X × List D) × Client S
  unfolding get_value
  get_typed id item t indx s =
      let ((code, out), s1) = get_value id item t indx buffer buffer s in
      if topic_eq.beq t null_topic
      then (err invalid_call, s)
      else if not (eqb_ℤ code (pos 0))
      then (err get_error, s1)
      else elim out [ none ↦ (err get_error, s1) | some p ↦ (ok p.1, s1) ]
