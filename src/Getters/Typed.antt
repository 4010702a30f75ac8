-- ===== src/Getters/Typed.antt =====
-- src/client/client_get.cpp: the calls of the interface for C, one for each type of number. `numbers`
-- are the copies of a stream into an array of a type.
use Prim.Native.String.{String}
use tosdata_bridge.Prelude.{ℕ, Bool, Option, List}
use tosdata_bridge.Prelude.Int.{ℤ}
use tosdata_bridge.Topics.Enum.{ElementType, long_type, double_type, long_long_type, float_type}
use tosdata_bridge.Stream.Read.{Dest}
use tosdata_bridge.Block.Interface.{StreamClass}
use tosdata_bridge.Client.State.{Client}
use tosdata_bridge.Getters.Interface.{Copies}
use tosdata_bridge.Getters.Values.{tosdb_get}
use tosdata_bridge.Getters.Snapshots.{tosdb_get_stream_snapshot}
use tosdata_bridge.Getters.Marked.{tosdb_get_from_marker, tosdb_get_n_from_marker}
use tosdata_bridge.Getters.Frames.{Cell, put_cast, tosdb_get_item_frame}

-- What a call for a number returns: its code, and what it has written.
abbrev pub Written : Type 0 → Type 0 → Type 0 → Type 0
Written N X D = ℤ × Option (N × (List X × List D))

module _ {X : ElementType → Type 0} {D S : Type 0}
    (numbers : (t : ElementType) → Copies (X t) D S) where
  -- `TOSDB_GetDouble`, `TOSDB_GetFloat`, `TOSDB_GetLongLong` and `TOSDB_GetLong`
  unfoldable pub tosdb_get_double :
      String → String → String → ℤ → Dest → Dest → Client S → Written ℕ (X double_type) D × Client S
  unfolding tosdb_get
  tosdb_get_double = tosdb_get (numbers double_type)

  unfoldable pub tosdb_get_float :
      String → String → String → ℤ → Dest → Dest → Client S → Written ℕ (X float_type) D × Client S
  unfolding tosdb_get
  tosdb_get_float = tosdb_get (numbers float_type)

  unfoldable pub tosdb_get_long_long :
      String
      → String
      → String
      → ℤ
      → Dest
      → Dest
      → Client S
      → Written ℕ (X long_long_type) D × Client S
  unfolding tosdb_get
  tosdb_get_long_long = tosdb_get (numbers long_long_type)

  unfoldable pub tosdb_get_long :
      String → String → String → ℤ → Dest → Dest → Client S → Written ℕ (X long_type) D × Client S
  unfolding tosdb_get
  tosdb_get_long = tosdb_get (numbers long_type)

  -- `TOSDB_GetStreamSnapshotDoubles` and the others
  unfoldable pub tosdb_get_stream_snapshot_doubles :
      String
      → String
      → String
      → Dest
      → ℕ
      → Dest
      → ℤ
      → ℤ
      → Client S
      → Written ℕ (X double_type) D × Client S
  unfolding tosdb_get_stream_snapshot
  tosdb_get_stream_snapshot_doubles = tosdb_get_stream_snapshot (numbers double_type)

  unfoldable pub tosdb_get_stream_snapshot_floats :
      String
      → String
      → String
      → Dest
      → ℕ
      → Dest
      → ℤ
      → ℤ
      → Client S
      → Written ℕ (X float_type) D × Client S
  unfolding tosdb_get_stream_snapshot
  tosdb_get_stream_snapshot_floats = tosdb_get_stream_snapshot (numbers float_type)

  unfoldable pub tosdb_get_stream_snapshot_long_longs :
      String
      → String
      → String
      → Dest
      → ℕ
      → Dest
      → ℤ
      → ℤ
      → Client S
      → Written ℕ (X long_long_type) D × Client S
  unfolding tosdb_get_stream_snapshot
  tosdb_get_stream_snapshot_long_longs = tosdb_get_stream_snapshot (numbers long_long_type)

  unfoldable pub tosdb_get_stream_snapshot_longs :
      String
      → String
      → String
      → Dest
      → ℕ
      → Dest
      → ℤ
      → ℤ
      → Client S
      → Written ℕ (X long_type) D × Client S
  unfolding tosdb_get_stream_snapshot
  tosdb_get_stream_snapshot_longs = tosdb_get_stream_snapshot (numbers long_type)

  -- `TOSDB_GetStreamSnapshotDoublesFromMarker` and the others
  unfoldable pub tosdb_get_stream_snapshot_doubles_from_marker :
      String
      → String
      → String
      → Dest
      → ℕ
      → Dest
      → ℤ
      → Client S
      → Written ℤ (X double_type) D × Client S
  unfolding tosdb_get_from_marker
  tosdb_get_stream_snapshot_doubles_from_marker = tosdb_get_from_marker (numbers double_type)

  unfoldable pub tosdb_get_stream_snapshot_floats_from_marker :
      String
      → String
      → String
      → Dest
      → ℕ
      → Dest
      → ℤ
      → Client S
      → Written ℤ (X float_type) D × Client S
  unfolding tosdb_get_from_marker
  tosdb_get_stream_snapshot_floats_from_marker = tosdb_get_from_marker (numbers float_type)

  unfoldable pub tosdb_get_stream_snapshot_long_longs_from_marker :
      String
      → String
      → String
      → Dest
      → ℕ
      → Dest
      → ℤ
      → Client S
      → Written ℤ (X long_long_type) D × Client S
  unfolding tosdb_get_from_marker
  tosdb_get_stream_snapshot_long_longs_from_marker = tosdb_get_from_marker (numbers long_long_type)

  unfoldable pub tosdb_get_stream_snapshot_longs_from_marker :
      String
      → String
      → String
      → Dest
      → ℕ
      → Dest
      → ℤ
      → Client S
      → Written ℤ (X long_type) D × Client S
  unfolding tosdb_get_from_marker
  tosdb_get_stream_snapshot_longs_from_marker = tosdb_get_from_marker (numbers long_type)

  -- `TOSDB_GetNDoublesFromMarker` and the others
  unfoldable pub tosdb_get_n_doubles_from_marker :
      String → String → String → Dest → ℕ → Dest → Client S → Written ℤ (X double_type) D × Client S
  unfolding tosdb_get_n_from_marker
  tosdb_get_n_doubles_from_marker = tosdb_get_n_from_marker (numbers double_type)

  unfoldable pub tosdb_get_n_floats_from_marker :
      String → String → String → Dest → ℕ → Dest → Client S → Written ℤ (X float_type) D × Client S
  unfolding tosdb_get_n_from_marker
  tosdb_get_n_floats_from_marker = tosdb_get_n_from_marker (numbers float_type)

  unfoldable pub tosdb_get_n_long_longs_from_marker :
      String
      → String
      → String
      → Dest
      → ℕ
      → Dest
      → Client S
      → Written ℤ (X long_long_type) D × Client S
  unfolding tosdb_get_n_from_marker
  tosdb_get_n_long_longs_from_marker = tosdb_get_n_from_marker (numbers long_long_type)

  unfoldable pub tosdb_get_n_longs_from_marker :
      String → String → String → Dest → ℕ → Dest → Client S → Written ℤ (X long_type) D × Client S
  unfolding tosdb_get_n_from_marker
  tosdb_get_n_longs_from_marker = tosdb_get_n_from_marker (numbers long_type)

module _ {E V G D S : Type 0} {X : ElementType → Type 0} (c : StreamClass E V G D S)
    (cast : (t : ElementType) → G → Option (X t)) where
  -- `TOSDB_GetItemFrameDoubles` and the others, with the casts of the generic type
  unfoldable pub tosdb_get_item_frame_doubles :
      String → String → ℕ → Option ℕ → Bool → Client S → ℤ × Option (List (Cell (X double_type) D))
  unfolding tosdb_get_item_frame
  tosdb_get_item_frame_doubles = tosdb_get_item_frame c (put_cast (cast double_type))

  unfoldable pub tosdb_get_item_frame_floats :
      String → String → ℕ → Option ℕ → Bool → Client S → ℤ × Option (List (Cell (X float_type) D))
  unfolding tosdb_get_item_frame
  tosdb_get_item_frame_floats = tosdb_get_item_frame c (put_cast (cast float_type))

  unfoldable pub tosdb_get_item_frame_long_longs :
      String
      → String
      → ℕ
      → Option ℕ
      → Bool
      → Client S
      → ℤ × Option (List (Cell (X long_long_type) D))
  unfolding tosdb_get_item_frame
  tosdb_get_item_frame_long_longs = tosdb_get_item_frame c (put_cast (cast long_long_type))

  unfoldable pub tosdb_get_item_frame_longs :
      String → String → ℕ → Option ℕ → Bool → Client S → ℤ × Option (List (Cell (X long_type) D))
  unfolding tosdb_get_item_frame
  tosdb_get_item_frame_longs = tosdb_get_item_frame c (put_cast (cast long_type))
