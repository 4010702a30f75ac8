-- ===== src/Getters/Tests.antt =====
-- A client with one block of two items and two topics, and the theorems on the calls that read it.
use Prim.Native.String.{String}
use tosdata_bridge.Prelude.{
  ℕ, ◌≡◌, refl, true, false, ◌&&◌, none, some, List, [], ◌∷◌, length, take, drop, if◌then◌else◌,
  inl, inr, arith,
}
use tosdata_bridge.Prelude.Int.{pos, negsuc, ◌+ℤ◌, ◌-ℤ◌, to_int, to_size}
use tosdata_bridge.Prelude.Action.{ok, err}
use tosdata_bridge.Prelude.Dict.{lookup, contains}
use tosdata_bridge.Prelude.Order.{Ascending, in_order, text_less}
use tosdata_bridge.Topics.Enum.{
  Topic, topic_value, ElementType, element_type, double_type, long_type, float_type, last, volume,
}
use tosdata_bridge.Topics.Map.{topic_eq, text_eq}
use tosdata_bridge.Stream.State.{Stream, check_adj, check_range, adjust}
use tosdata_bridge.Stream.Read.{null, buffer, copy_to_ptr, set_mark}
use tosdata_bridge.Stream.Invariant.{IsValid}
use tosdata_bridge.Elements.Any.{AnyStream, Argument, plain, data_stream, bound_size}
use tosdata_bridge.Elements.Push.{Element}
use tosdata_bridge.Elements.Laws.{data_stream_laws}
use tosdata_bridge.Elements.Reads.{any_reads, any_copies, any_copy, state_of}
use tosdata_bridge.Elements.ReadLaws.{any_reads_laws, any_copies_laws}
use tosdata_bridge.Elements.Tests.{small_values}
use tosdata_bridge.Block.Interface.{StreamClass}
use tosdata_bridge.Block.State.{Block, block_error, new_block}
use tosdata_bridge.Block.Invariant.{new_block-IsValid}
use tosdata_bridge.Block.Insert.{stream_at}
use tosdata_bridge.Block.Frames.{value}
use tosdata_bridge.Block.Limit.{new_registry}
use tosdata_bridge.Client.State.{TosdBlock, Client}
use tosdata_bridge.Client.Valid.{is_valid_block_id}
use tosdata_bridge.Client.Query.{error_bad_input_buffer}
use tosdata_bridge.Getters.Interface.{Copies, ReadClass}
use tosdata_bridge.Getters.State.{doesnt_exist, raw_error, thrown, with_stream}
use tosdata_bridge.Getters.Snapshots.{snapshot_read}
use tosdata_bridge.Getters.Frames.{get_item_frame_cells}
use tosdata_bridge.Getters.Marked.{tosdb_get_from_marker, tosdb_get_n_from_marker}
use tosdata_bridge.Getters.Single.{client_stream, with_stream-client_stream}
use tosdata_bridge.Getters.Untouched.{AllValid, Untouched}
use tosdata_bridge.Getters.Sequence.{
  Reading, reads_number, snaps_generic_dts, snaps_typed, marks_numbers, counts_strings, do_readings,
  do_readings-Untouched,
}
use tosdata_bridge.Getters.Exact.{snapshot_read-exact}
use tosdata_bridge.Getters.Written.{all_fit, cells, get_item_frame_cells_complete}

abbrev Streams : Type 0
Streams = AnyStream ℕ ℕ ℕ

abbrev streams : StreamClass ElementType (Argument ℕ ℕ ℕ) ℕ ℕ Streams
streams = data_stream small_values

abbrev element_of : Topic → ElementType
element_of t = element_type (topic_value t)

abbrev items : List String
items = "SPY" ∷ "QQQ" ∷ []

abbrev spy_qqq : Block String Topic Streams
spy_qqq = new_block streams element_of items (last ∷ volume ∷ []) 3 true

abbrev db : TosdBlock Streams
db = record { timeout = 2000; block = spy_qqq; item_precache = []; topic_precache = [] }

abbrev client : Client Streams
client = record { dde_blocks = ("A", db) ∷ []; buffers = []; registry = new_registry }

abbrev reads : ReadClass ℕ ℕ Streams
reads = any_reads small_values

abbrev numbers : (t : ElementType) → Copies (Element ℕ ℕ t) ℕ Streams
numbers = any_copies small_values

spy_qqq-last : contains last spy_qqq.topic_enums ≡ true
unfolding new_block
spy_qqq-last = refl

with_stream-client_stream_example :
    ((with_stream (reads.get (pos 0)) "A" "SPY" last client).0
      ≡ elim (lookup "A" client.dde_blocks) [
        | none ↦ err doesnt_exist
        | some db ↦ elim (stream_at "SPY" last db.block) [
          | none ↦ err (raw_error block_error)
          | some p ↦ thrown (reads.get (pos 0) p).0
        ]
      ])
    × ((id j : String) (u : Topic)
        → client_stream id j u (with_stream (reads.get (pos 0)) "A" "SPY" last client).1 ≡ (
            if text_eq.beq "A" id && (text_eq.beq "SPY" j && topic_eq.beq last u)
            then elim (client_stream "A" "SPY" last client) [
              | none ↦ none
              | some p ↦ some (reads.get (pos 0) p).1
            ]
            else client_stream id j u client))
with_stream-client_stream_example =
    with_stream-client_stream (reads.get (pos 0)) "A" "SPY" last client

client-AllValid : AllValid (data_stream_laws small_values) element_of client
client-AllValid = (
  new_block-IsValid (data_stream_laws small_values) element_of items (last ∷ volume ∷ []) 3 true,
  tt,
)

abbrev calls : List Reading
calls =
    reads_number double_type "A" "SPY" "LAST" (pos 0) buffer buffer
    ∷ snaps_generic_dts "A" "QQQ" volume (pos 2) (pos 0)
    ∷ snaps_typed long_type "A" "QQQ" volume buffer (negsuc 0) (pos 0)
    ∷ marks_numbers float_type "A" "SPY" "LAST" buffer 5 null (pos 0)
    ∷ counts_strings "B" "SPY" "LAST" buffer 5 20 buffer
    ∷ []

do_readings-Untouched_example :
    Untouched
      (data_stream_laws small_values)
      element_of
      client
      (do_readings reads numbers calls client)
do_readings-Untouched_example =
    do_readings-Untouched (data_stream_laws small_values) element_of reads
      (any_reads_laws small_values) numbers (any_copies_laws small_values) calls client
      client-AllValid

-- A stream of three numbers, of which two have come in.
abbrev three : Stream ℕ
three = record {
  deque = 9 ∷ 8 ∷ 0 ∷ [];
  qbound = 3;
  qcount = 2;
  mark_count = pos 1;
  mark_is_dirty = false;
  push_has_priority = true;
}

three-IsValid : IsValid three
three-IsValid = record {
  full = refl;
  bound_low = omega arith;
  bound_high = omega arith;
  counted = omega arith;
  mark_low = omega arith;
  mark_high = omega arith;
}

snapshot_read-exact_example :
    (length (take 2 (drop 0 three.deque)) ≡ 2)
    × (snapshot_read reads (numbers double_type) null (negsuc 0) (pos 0) (plain double_type 0 three)
        ≡ (ok (some (2, (9 ∷ 8 ∷ [], []))), plain double_type 0 (set_mark 0 three)))
unfolding ◌+ℤ◌
snapshot_read-exact_example =
    snapshot_read-exact small_values double_type 0 three-IsValid (omega arith) null (negsuc 0)
      (pos 0) 2 0 (omega arith, inr (omega arith, refl)) (omega arith, inl refl)

get_item_frame_cells_complete_example :
    (m : List (String × ℕ)) × (p : List (String × (ℕ × ℕ))) × Ascending m
    × Ascending p
    × (get_item_frame_cells streams (λ g. ok g) "A" last 10 (some 8) false client ≡ (
        if all_fit (some 8) (take 10 m)
        then (pos 0, some (cells (λ g. (g, none)) (some 8) (take 10 m)))
        else (error_bad_input_buffer, none)))
    × (get_item_frame_cells streams (λ g. ok g) "A" last 10 (some 8) true client ≡ (
        if all_fit (some 8) (take 10 p)
        then (pos 0, some (cells (λ q. (q.0, some q.1)) (some 8) (take 10 p)))
        else (error_bad_input_buffer, none)))
    × ((i : String)
        → (lookup i m ≡ elim (stream_at i last spy_qqq) [
          | none ↦ none
          | some q ↦ value (streams.get_leave_marker (pos 0) q)
        ])
          × (lookup i p ≡ elim (stream_at i last spy_qqq) [
            | none ↦ none
            | some q ↦ value (streams.both_leave_marker (pos 0) q)
          ]))
unfolding is_valid_block_id
get_item_frame_cells_complete_example =
    get_item_frame_cells_complete (data_stream_laws small_values) element_of (λ g. g) "A" last 10
      (some 8) client db refl refl refl
      (new_block-IsValid (data_stream_laws small_values) element_of items (last ∷ volume ∷ []) 3
        true)
      spy_qqq-last

-- A loop over a map begins at the first key, not at the entry that was filled in first.
in_text_order : in_order {V = ℕ} (("LONGNAME", 1) ∷ ("A", 2) ∷ []) ≡ ("A", 2) ∷ ("LONGNAME", 1) ∷ []
unfolding in_order text_less
in_text_order = refl

-- A text of 256 characters.
abbrev long_text : String
long_text =
    "xxxxxxxxxxxxxxxxxxxxxxxxxxxxxxxxxxxxxxxxxxxxxxxxxxxxxxxxxxxxxxxxxxxxxxxxxxxxxxxxxxxxxxxxxxxxxxxxxxxxxxxxxxxxxxxxxxxxxxxxxxxxxxxxxxxxxxxxxxxxxxxxxxxxxxxxxxxxxxxxxxxxxxxxxxxxxxxxxxxxxxxxxxxxxxxxxxxxxxxxxxxxxxxxxxxxxxxxxxxxxxxxxxxxxxxxxxxxxxxxxxxxxxxxxxxxxxxx"

-- A topic that is too long is no error for the calls from the marker: they return 0, and write nothing.
too_long :
    tosdb_get_from_marker (numbers double_type) "A" "SPY" long_text buffer 5 null (pos 0) client
    ≡ ((pos 0, none), client)
unfolding tosdb_get_from_marker
too_long = refl

too_long_n :
    tosdb_get_n_from_marker (numbers double_type) "A" "SPY" long_text buffer 5 null client
    ≡ ((pos 0, none), client)
unfolding tosdb_get_n_from_marker
too_long_n = refl

-- Indices that lie before the start of the stream are adjusted twice: of a vector of five elements the
-- first two are written, from the other end of the stream.
before_start :
    snapshot_read reads (numbers double_type) null (negsuc 4) (negsuc 5) (plain double_type 0 three)
    ≡ (ok (some (5, (9 ∷ 8 ∷ [], []))), plain double_type 0 (set_mark 0 three))
unfolding snapshot_read ◌-ℤ◌ to_int ◌+ℤ◌ bound_size to_size state_of any_copy check_adj check_range
    adjust copy_to_ptr set_mark
before_start = refl
