-- ===== src/Getters/Snapshots.antt =====
-- src/client/client_get.cpp: the calls that read a range of a stream.
use Prim.Native.String.{String}
use tosdata_bridge.Prelude.{
  ℕ, ◌+◌, ◌%◌, ◌^◌, not, ◌&&◌, Option, none, some, List, [], min, ◌==◌, if◌then◌else◌,
}
use tosdata_bridge.Prelude.Int.{ℤ, pos, ◌+ℤ◌, ◌-ℤ◌, ltb_ℤ, to_int, to_size, size_mod, pos_part}
use tosdata_bridge.Prelude.Action.{Result, ok, err, Action, pure, ◌>>=◌}
use tosdata_bridge.Topics.Enum.{Topic, null_topic}
use tosdata_bridge.Topics.Map.{topic_eq, topic_of}
use tosdata_bridge.Stream.State.{StreamError}
use tosdata_bridge.Stream.Read.{Dest, buffer}
use tosdata_bridge.Block.State.{max_block_sz}
use tosdata_bridge.Client.State.{Client, error_bad_input, error_bad_topic}
use tosdata_bridge.Client.Valid.{is_valid_block_id, check_string_length}
use tosdata_bridge.Getters.Interface.{Copies, ReadClass}
use tosdata_bridge.Getters.State.{
  Thrown, invalid_call, with_stream, caught, ask_stream, read_or_throw, error_get_data,
}

module _ {G D S : Type 0} (r : ReadClass G D S) where
  -- The two vectors of `TOSDB_GetStreamSnapshot<generic_type, true>`.
  abbrev pub vectors : ℤ → ℤ → Action S StreamError (List G × List D)
  vectors end beg = do v ← r.vector end beg; d ← r.secondary_vector end beg; pure (v, d)

  -- `TOSDB_GetStreamSnapshot<generic_type, false>` and `TOSDB_GetStreamSnapshot<generic_type, true>`
  unfoldable pub get_snapshot :
      String → String → Topic → ℤ → ℤ → Client S → Result Thrown (List G) × Client S
  unfolding read_or_throw
  get_snapshot id item t end beg = read_or_throw (r.vector end beg) id item t

  unfoldable pub get_snapshot_dts :
      String → String → Topic → ℤ → ℤ → Client S → Result Thrown (List G × List D) × Client S
  unfolding read_or_throw
  get_snapshot_dts id item t end beg = read_or_throw (vectors end beg) id item t

  -- `TOSDB_GetStreamSnapshotStrings`
  unfoldable pub tosdb_get_stream_snapshot_strings :
      String
      → String
      → String
      → Dest
      → ℕ
      → ℕ
      → Dest
      → ℤ
      → ℤ
      → Client S
      → (ℤ × Option (ℕ × (List (List ℕ) × List D))) × Client S
  unfolding ask_stream
  tosdb_get_stream_snapshot_strings id item topic_str dest array_len str_len datetime end beg =
      ask_stream error_get_data ((r.strings str_len).copy dest datetime array_len end beg) id item
        topic_str

-- What `TOSDB_GetStreamSnapshot<T, b>` makes of its indices: a negative one counts from the end, in
-- 32 bits. `long` arithmetic that overflows is undefined, and exact here.
unfoldable pub from_end : ℕ → ℤ → ℤ
from_end sz i = if ltb_ℤ i (pos 0) then to_int (i +ℤ pos sz) else i

-- The length of the vector that is made, if the indices are not refused.
unfoldable pub snapshot_length : ℕ → ℤ → ℤ → Option ℕ
snapshot_length size end beg =
    let mindiff = pos (min ((to_size end + 1) % size_mod) size) -ℤ beg in
    if ltb_ℤ (end -ℤ beg) (pos 0)
    then none
    else if ltb_ℤ (pos max_block_sz) mindiff
    then none
    else some (pos_part mindiff)

-- What is thrown if the indices are refused.
unfoldable pub refused :
    {A S : Type 0} → Result Thrown (Option A) × Client S → Result Thrown A × Client S
refused (ok none, s) = (err invalid_call, s)
refused (ok (some v), s) = (ok v, s)
refused (err e, s) = (err e, s)

module _ {G X D S : Type 0} (r : ReadClass G D S) (k : Copies X D S) where
  -- The adjusted indices, for a stream `p`.
  unfoldable pub snapshot_range : ℤ → ℤ → S → ℤ × ℤ
  unfolding from_end
  snapshot_range end beg p = let sz = r.bound_size p % 2 ^ 32 in (from_end sz end, from_end sz beg)

  -- `GSSRetType`: vectors of a length `n`, and what is written to them from their start on. With
  -- `datetime` the stamps are written too.
  unfoldable pub snapshot_copy :
      Dest → ℤ → ℤ → ℕ → Action S StreamError (Option (ℕ × (List X × List D)))
  snapshot_copy datetime end beg n =
      if n == 0
      then pure (some (0, ([], [])))
      else (do out ← k.copy buffer datetime n end beg; pure (some (n, out.1)))

  -- The copy, unless the indices are refused.
  unfoldable pub snapshot_checked :
      Dest → ℤ → ℤ → Option ℕ → Action S StreamError (Option (ℕ × (List X × List D)))
  unfolding snapshot_copy
  snapshot_checked datetime end beg none = pure none
  snapshot_checked datetime end beg (some n) = snapshot_copy datetime end beg n

  -- `TOSDB_GetStreamSnapshot<T, b>`, with the test of the indices as a read that may say no.
  unfoldable pub snapshot_read :
      Dest → ℤ → ℤ → Action S StreamError (Option (ℕ × (List X × List D)))
  unfolding snapshot_range snapshot_length snapshot_checked
  snapshot_read datetime end beg p =
      let (e, b) = snapshot_range end beg p in
      snapshot_checked datetime e b (snapshot_length (r.size p) e b) p

  unfoldable pub get_typed_snapshot :
      String
      → String
      → Topic
      → Dest
      → ℤ
      → ℤ
      → Client S
      → Result Thrown (ℕ × (List X × List D)) × Client S
  unfolding read_or_throw snapshot_read refused
  get_typed_snapshot id item t datetime end beg s =
      refused (read_or_throw (snapshot_read datetime end beg) id item t s)

module _ {X D S : Type 0} (k : Copies X D S) where
  -- `TOSDB_GetStreamSnapshot_` of a topic
  unfoldable pub get_stream_snapshot :
      String
      → String
      → Topic
      → Dest
      → ℕ
      → Dest
      → ℤ
      → ℤ
      → Client S
      → (ℤ × Option (ℕ × (List X × List D))) × Client S
  unfolding caught with_stream
  get_stream_snapshot id item t dest array_len datetime end beg s =
      if not (is_valid_block_id id && check_string_length item)
      then ((error_bad_input, none), s)
      else caught error_get_data (with_stream (k.copy dest datetime array_len end beg) id item t s)

  -- `TOSDB_GetStreamSnapshot_` of a text, which is `TOSDB_GetStreamSnapshotDoubles`, `...Floats`,
  -- `...LongLongs` and `...Longs` for the copies into an array of that type.
  unfoldable pub tosdb_get_stream_snapshot :
      String
      → String
      → String
      → Dest
      → ℕ
      → Dest
      → ℤ
      → ℤ
      → Client S
      → (ℤ × Option (ℕ × (List X × List D))) × Client S
  unfolding get_stream_snapshot
  tosdb_get_stream_snapshot id item topic_str dest array_len datetime end beg s =
      if not (check_string_length topic_str)
      then ((error_bad_input, none), s)
      else if topic_eq.beq (topic_of topic_str) null_topic
      then ((error_bad_topic, none), s)
      else get_stream_snapshot id item (topic_of topic_str) dest array_len datetime end beg s
