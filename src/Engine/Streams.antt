-- ===== src/Engine/Streams.antt =====
-- src/service/engine.cpp: the operations on streams. What the system and TOS answer to an operation
-- stands in an argument: the acknowledgements that come in during each of its waits, and whether the
-- calls of the system succeed. A posted message changes nothing here, whether it is posted or not.
use Prim.Native.String.{String}
use tosdata_bridge.Prelude.{
  ℕ, ◌+◌, ◌-◌, ◌%◌, Bool, true, false, ◌&&◌, none, some, List, [], ◌∷◌, ◌++◌, is_nil, ◌==◌,
  if◌then◌else◌,
}
use tosdata_bridge.Prelude.Int.{ℤ, pos, negsuc, size_mod}
use tosdata_bridge.Prelude.Dict.{nat_eq, lookup, set_at, erase, insert, keys}
use tosdata_bridge.Prelude.Table.{pair_eq, put}
use tosdata_bridge.TwoWayMap.{remove_key, value_at}
use tosdata_bridge.Topics.Enum.{Topic, null_topic, topic_value, type_size}
use tosdata_bridge.Topics.Map.{topic_eq, text_eq, text_of}
use tosdata_bridge.Shared.State.{Buffer, create_buffer}
use tosdata_bridge.Signals.{set_signal_id, wait_for}
use tosdata_bridge.Engine.State.{Engine, ItemRefcounts, Ack, item_signal_id, signals_of, greet}

-- The errors that the operations return, and `TOSDB_ERROR_...` of each; 0 is no error.
pub data StreamStatus : Type 0 where
  done bad_topic no_topic no_item dde_post dde_no_ack shem_buffer : StreamStatus

abbrev pub status_code : StreamStatus → ℤ
status_code done = pos 0
status_code bad_topic = negsuc 8
status_code no_topic = negsuc 14
status_code no_item = negsuc 15
status_code dde_post = negsuc 20
status_code dde_no_ack = negsuc 21
status_code shem_buffer = negsuc 22

-- The acknowledgements of a wait: before it is woken, and from there to its end.
pub record Arrivals : Type 0 where
  pub early : List Ack
  pub late : List Ack

-- The answers to an operation. `made` says that the mapping, the view and the mutex of the buffer
-- are created; the last three, that they are given back.
pub record Answers : Type 0 where
  pub to_initiate : Arrivals
  pub to_link : Arrivals
  pub to_delink : Arrivals
  pub made : Bool
  pub unmapped : Bool
  pub file_closed : Bool
  pub mutex_closed : Bool
  pub page_size : ℕ

-- `size_t`, counted up and down.
abbrev pub incr : ℕ → ℕ
incr n = (n + 1) % size_mod

abbrev pub decr : ℕ → ℕ
decr n = (n + (size_mod - 1)) % size_mod

-- `TOSDB_SHEM_BUF_SZ`
abbrev pub shem_buf_sz : ℕ
shem_buf_sz = 4096

-- The items of a topic, none where the topic is not there.
abbrev pub items_of : Topic → List (Topic × ItemRefcounts) → ItemRefcounts
items_of t m = elim (lookup t m) [ none ↦ [] | some items ↦ items ]

-- The buffer that `CreateBuffer` makes for a stream, in memory that has something in it.
abbrev pub stream_buffer : {X : Type 0} → X → Topic → Answers → Buffer X
stream_buffer blank t a = create_buffer blank a.page_size shem_buf_sz (type_size (topic_value t))

module _ {X : Type 0} where
  -- `ack_signals.wait_for`, with what `WndProc` does in the meantime.
  unfoldable pub wait_ack : String → Arrivals → Engine X → Bool × Engine X
  wait_ack id w s =
      let (r, signals) = wait_for id (signals_of w.early) (signals_of w.late) s.ack_signals in
      (r, record s { ack_signals = signals; convos = greet (w.early ++ w.late) s.convos })

  abbrev pub set_signal : String → Engine X → Engine X
  set_signal id s = record s { ack_signals = set_signal_id id s.ack_signals }

  -- `PostItem`, and `PostCloseItem` the same with the message `DELINK_DDE_ITEM`.
  unfoldable pub post_item : String → Topic → Arrivals → Engine X → Bool × Engine X
  post_item item t w s =
      let id = item_signal_id (value_at 0 t s.convos) item in wait_ack id w (set_signal id s)

  unfoldable pub post_close_item : String → Topic → Arrivals → Engine X → Bool × Engine X
  post_close_item item t w s =
      let id = item_signal_id (value_at 0 t s.convos) item in wait_ack id w (set_signal id s)

  -- `CreateBuffer`
  unfoldable pub create_stream_buffer : X → Topic → String → Answers → Engine X → Bool × Engine X
  create_stream_buffer blank t item a s = elim (lookup (item, t) s.buffers) [
    | some b ↦ (false, s)
    | none ↦
        if a.made
        then (true, record s { buffers = insert (item, t) (stream_buffer blank t a) s.buffers })
        else (false, s)
  ]

  -- `DestroyBuffer`
  unfoldable pub destroy_buffer : Topic → String → Answers → Engine X → Bool × Engine X
  destroy_buffer t item a s = elim (lookup (item, t) s.buffers) [
    | none ↦ (false, s)
    | some b ↦ (
      a.unmapped && a.file_closed && a.mutex_closed,
      record s { buffers = erase (item, t) s.buffers },
    )
  ]

  abbrev pub set_count : Topic → String → ℕ → Engine X → Engine X
  set_count t item n s = record s {
    topic_refcounts = put t (put item n (items_of t s.topic_refcounts)) s.topic_refcounts;
  }

  -- The end of `CreateTopic`, which is all of `CreateItem`.
  unfoldable pub create_item : X → Topic → String → Answers → Engine X → StreamStatus × Engine X
  create_item blank t item a s =
      let (linked, s1) = post_item item t a.to_link s in
      let (made, s2) = create_stream_buffer blank t item a (set_count t item 1 s1) in
      if linked then (if made then (done, s2) else (shem_buffer, s2)) else (dde_post, s1)

  unfoldable pub create_topic : X → Topic → String → Answers → Engine X → StreamStatus × Engine X
  create_topic blank t item a s =
      let (acked, s1) = wait_ack (text_of t) a.to_initiate (set_signal (text_of t) s) in
      let rest =
        create_item blank t item a (record s1 { topic_refcounts = put t [] s1.topic_refcounts }) in
      if acked then rest else (dde_no_ack, s1)

  -- `CloseItem`: the first error takes priority.
  unfoldable pub close_item : Topic → String → Answers → Engine X → StreamStatus × Engine X
  close_item t item a s =
      let (delinked, s1) = post_close_item item t a.to_delink s in
      let (destroyed, s2) = destroy_buffer t item a s1 in
      (if delinked then (if destroyed then done else shem_buffer) else dde_post, s2)

  unfoldable pub close_topic : Topic → Engine X → Engine X
  close_topic t s = record s {
    topic_refcounts = erase t s.topic_refcounts;
    convos = remove_key t s.convos;
  }

  -- `topic_refcounts[topic_t]`, which makes an empty entry where there is none.
  abbrev pub touch : Topic → Engine X → Engine X
  touch t s = record s { topic_refcounts = put t (items_of t s.topic_refcounts) s.topic_refcounts }

  -- The cases of the unwinding, each of which falls through to the next.
  unfoldable pub unwind_post : Topic → Engine X → Engine X
  unwind_post t s =
      let s1 = touch t s in if is_nil (items_of t s1.topic_refcounts) then close_topic t s1 else s1

  unfoldable pub unwind : StreamStatus → Topic → String → Answers → Engine X → Engine X
  unwind shem_buffer t item a s =
      let s1 = (post_close_item item t a.to_delink s).1 in
      unwind_post t (record s1 {
        topic_refcounts = put t (erase item (items_of t s1.topic_refcounts)) s1.topic_refcounts;
      })
  unwind dde_post t item a s = unwind_post t s
  unwind dde_no_ack t item a s = close_topic t s
  unwind _ t item a s = s

  -- The part of `AddStream` before the unwinding.
  unfoldable pub open_stream : X → Topic → String → Answers → Engine X → StreamStatus × Engine X
  open_stream blank t item a s = elim (lookup t s.topic_refcounts) [
    | none ↦ create_topic blank t item a s
    | some items ↦ elim (lookup item items) [
      | none ↦ create_item blank t item a s
      | some n ↦ (
        done,
        record s { topic_refcounts = set_at t (set_at item (incr n) items) s.topic_refcounts },
      )
    ]
  ]

  unfoldable pub add_stream : X → Topic → String → Answers → Engine X → StreamStatus × Engine X
  add_stream blank t item a s =
      if topic_eq.beq t null_topic
      then (bad_topic, s)
      else (let (err, s1) = open_stream blank t item a s in (err, unwind err t item a s1))

  -- The part of `RemoveStream` that has found the items of the topic.
  unfoldable pub drop_stream :
      Topic → String → Answers → ItemRefcounts → Engine X → StreamStatus × Engine X
  drop_stream t item a items s = elim (lookup item items) [
    | none ↦ (no_item, s)
    | some n ↦
        let items1 = set_at item (decr n) items in
        let s1 = record s { topic_refcounts = set_at t items1 s.topic_refcounts } in
        let (err, s2) = close_item t item a s1 in
        if decr n == 0
        then (err, record s2 { topic_refcounts = set_at t (erase item items1) s2.topic_refcounts })
        else (done, s1)
  ]

  unfoldable pub remove_stream : Topic → String → Answers → Engine X → StreamStatus × Engine X
  remove_stream t item a s =
      if topic_eq.beq t null_topic then (bad_topic, s) else elim (lookup t s.topic_refcounts) [
        | none ↦ (no_topic, s)
        | some items ↦
            let (err, s1) = drop_stream t item a items s in
            (err, if is_nil (items_of t s1.topic_refcounts) then close_topic t s1 else s1)
      ]

  -- `TestStream`, with the answers to the two operations that it makes.
  unfoldable pub test_stream :
      X → Topic → String → Answers → Answers → Engine X → StreamStatus × Engine X
  test_stream blank t item a a' s =
      let (err, s1) = add_stream blank t item a s in
      elim err [ done ↦ remove_stream t item a' s1 | other ↦ (other, s1) ]

  -- The loops of `RemoveAllStreams`, over copies of the maps.
  unfoldable pub remove_items :
      Topic → List String → (Topic → String → Answers) → Engine X → Engine X
  remove_items t [] a s = s
  remove_items t (item ∷ items) a s = remove_items t items a (remove_stream t item (a t item) s).1

  unfoldable pub remove_topics :
      List (Topic × ItemRefcounts) → (Topic → String → Answers) → Engine X → Engine X
  remove_topics [] a s = s
  remove_topics ((t, items) ∷ m) a s = remove_topics m a (remove_items t (keys items) a s)

  unfoldable pub remove_all_streams : (Topic → String → Answers) → Engine X → Engine X
  remove_all_streams a s = remove_topics s.topic_refcounts a s
