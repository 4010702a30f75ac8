-- ===== src/Getters/Sequence.antt =====
-- The calls of src/client/client_get.cpp that read the streams of a client, in any order.
use Prim.Native.String.{String}
use tosdata_bridge.Prelude.{
  ℕ, ◌≡◌, sym, subst, Bool, not, ◌&&◌, Option, none, List, [], ◌∷◌, if_ind, if◌then◌else◌, arith,
  inl, inr, Bool-cases,
}
use tosdata_bridge.Prelude.Int.{ℤ, pos}
use tosdata_bridge.Topics.Enum.{Topic, null_topic, ElementType}
use tosdata_bridge.Topics.Map.{topic_eq, topic_of}
use tosdata_bridge.Stream.Read.{Dest, buffer}
use tosdata_bridge.Block.Interface.{StreamClass, StreamLaws}
use tosdata_bridge.Client.State.{Client, error_bad_input, error_bad_topic}
use tosdata_bridge.Client.Valid.{is_valid_block_id, check_string_length}
use tosdata_bridge.Getters.Interface.{Copies, ReadClass, CopyLaws, ReadLaws}
use tosdata_bridge.Getters.State.{read_or_throw, error_get_data}
use tosdata_bridge.Getters.Values.{
  get_generic, get_generic_dts, get_value, tosdb_get, get_typed, tosdb_get_string,
}
use tosdata_bridge.Getters.Snapshots.{
  vectors, get_snapshot, get_snapshot_dts, snapshot_read, get_typed_snapshot, get_stream_snapshot,
  tosdb_get_stream_snapshot, tosdb_get_stream_snapshot_strings,
}
use tosdata_bridge.Getters.Marked.{
  sized, get_from_marker, tosdb_get_from_marker, tosdb_get_strings_from_marker, get_n_from_marker,
  tosdb_get_n_from_marker, tosdb_get_n_strings_from_marker,
}
use tosdata_bridge.Getters.Steps.{
  refused-state, vectors-IsRead, sized-IsRead, snapshot_read-IsRead, caught-Untouched,
  ask_stream-Untouched, read_or_throw-Untouched,
}
use tosdata_bridge.Getters.Untouched.{AllValid, Untouched, Untouched-refl, Untouched-trans}

-- The calls that move the marker of a stream.
pub data Reading : Type 0 where
  reads_generic : (id item : String) → (t : Topic) → (indx : ℤ) → Reading
  reads_generic_dts : (id item : String) → (t : Topic) → (indx : ℤ) → Reading
  reads_number :
      (e : ElementType)
      → (id item topic_str : String) → (indx : ℤ) → (dest datetime : Dest) → Reading
  reads_typed : (e : ElementType) → (id item : String) → (t : Topic) → (indx : ℤ) → Reading
  reads_string :
      (id item topic_str : String) → (indx : ℤ) → (str_len : ℕ) → (datetime : Dest) → Reading
  snaps_generic : (id item : String) → (t : Topic) → (end beg : ℤ) → Reading
  snaps_generic_dts : (id item : String) → (t : Topic) → (end beg : ℤ) → Reading
  snaps_typed :
      (e : ElementType)
      → (id item : String) → (t : Topic) → (datetime : Dest) → (end beg : ℤ) → Reading
  snaps_numbers :
      (e : ElementType)
      → (id item topic_str : String) → (dest : Dest) → (array_len : ℕ) → (datetime : Dest)
      → (end beg : ℤ) → Reading
  snaps_strings :
      (id item topic_str : String)
      → (dest : Dest) → (array_len str_len : ℕ) → (datetime : Dest) → (end beg : ℤ) → Reading
  marks_numbers :
      (e : ElementType)
      → (id item topic_str : String) → (dest : Dest) → (array_len : ℕ) → (datetime : Dest)
      → (beg : ℤ) → Reading
  marks_strings :
      (id item topic_str : String)
      → (dest : Dest) → (array_len str_len : ℕ) → (datetime : Dest) → (beg : ℤ) → Reading
  counts_numbers :
      (e : ElementType)
      → (id item topic_str : String) → (dest : Dest) → (n : ℕ) → (datetime : Dest) → Reading
  counts_strings :
      (id item topic_str : String) → (dest : Dest) → (n str_len : ℕ) → (datetime : Dest) → Reading

module _ {G D S : Type 0} {X : ElementType → Type 0} (r : ReadClass G D S)
    (numbers : (e : ElementType) → Copies (X e) D S) where
  unfoldable pub do_reading : Reading → Client S → Client S
  do_reading (reads_generic id item t i) s = (get_generic r id item t i s).1
  do_reading (reads_generic_dts id item t i) s = (get_generic_dts r id item t i s).1
  do_reading (reads_number e id item t i dest dts) s =
      (tosdb_get (numbers e) id item t i dest dts s).1
  do_reading (reads_typed e id item t i) s = (get_typed (numbers e) id item t i s).1
  do_reading (reads_string id item t i n dts) s = (tosdb_get_string r id item t i n dts s).1
  do_reading (snaps_generic id item t end beg) s = (get_snapshot r id item t end beg s).1
  do_reading (snaps_generic_dts id item t end beg) s = (get_snapshot_dts r id item t end beg s).1
  do_reading (snaps_typed e id item t dts end beg) s =
      (get_typed_snapshot r (numbers e) id item t dts end beg s).1
  do_reading (snaps_numbers e id item t dest n dts end beg) s =
      (tosdb_get_stream_snapshot (numbers e) id item t dest n dts end beg s).1
  do_reading (snaps_strings id item t dest n str_len dts end beg) s =
      (tosdb_get_stream_snapshot_strings r id item t dest n str_len dts end beg s).1
  do_reading (marks_numbers e id item t dest n dts beg) s =
      (tosdb_get_from_marker (numbers e) id item t dest n dts beg s).1
  do_reading (marks_strings id item t dest n str_len dts beg) s =
      (tosdb_get_strings_from_marker r id item t dest n str_len dts beg s).1
  do_reading (counts_numbers e id item t dest n dts) s =
      (tosdb_get_n_from_marker (numbers e) id item t dest n dts s).1
  do_reading (counts_strings id item t dest n str_len dts) s =
      (tosdb_get_n_strings_from_marker r id item t dest n str_len dts s).1

  unfoldable pub do_readings : List Reading → Client S → Client S
  do_readings [] s = s
  do_readings (reading ∷ readings) s = do_readings readings (do_reading reading s)

module _ {E V G D S : Type 0} {c : StreamClass E V G D S} (laws : StreamLaws c)
    (element_of : Topic → E) {X : ElementType → Type 0} (r : ReadClass G D S) (w : ReadLaws laws r)
    (numbers : (e : ElementType) → Copies (X e) D S)
    (ws : (e : ElementType) → CopyLaws laws (numbers e)) where
  -- The call changes no value.
  abbrev Leaves : (Client S → Client S) → Type 0
  Leaves f = (s : Client S) → AllValid laws element_of s → Untouched laws element_of s (f s)

  guarded :
      {A : Type 0} (b : Bool) (x : ℤ × Option A) (s : Client S) (q : (ℤ × Option A) × Client S)
      → AllValid laws element_of s
      → Untouched laws element_of s q.1
      → Untouched laws element_of s (if b then (x, s) else q).1
  guarded {A} b x s q v h =
      if_ind (λ (o : (ℤ × Option A) × Client S). Untouched laws element_of s o.1) b (x, s) q
        (Untouched-refl laws element_of s v) h

  get_value-Leaves :
      (e : ElementType) (id item : String) (t : Topic) (i : ℤ) (dest dts : Dest)
      → Leaves (λ s. (get_value (numbers e) id item t i dest dts s).1)
  unfolding get_value
  get_value-Leaves e id item t i dest dts s v =
      caught-Untouched laws element_of ((numbers e).copy dest dts 1 i i)
        ((ws e).copies dest dts 1 i i) id item s v error_get_data t

  get_typed-Leaves :
      (e : ElementType) (id item : String) (t : Topic) (i : ℤ)
      → Leaves (λ s. (get_typed (numbers e) id item t i s).1)
  unfolding get_typed
  get_typed-Leaves e id item t i s v = elim (Bool-cases (topic_eq.beq t null_topic)) [
    | inl h ↦
        let q : (get_typed (numbers e) id item t i s).1 ≡ s = ground (arith, h) in
        subst (Untouched laws element_of s) (sym q) (Untouched-refl laws element_of s v)
    | inr h ↦
        let q : (get_typed (numbers e) id item t i s).1
            ≡ (get_value (numbers e) id item t i buffer buffer s).1 =
          ground (arith, h) in
        subst (Untouched laws element_of s) (sym q)
          (get_value-Leaves e id item t i buffer buffer s v)
  ]

  get_typed_snapshot-Leaves :
      (e : ElementType) (id item : String) (t : Topic) (dts : Dest) (end beg : ℤ)
      → Leaves (λ s. (get_typed_snapshot r (numbers e) id item t dts end beg s).1)
  unfolding get_typed_snapshot
  get_typed_snapshot-Leaves e id item t dts end beg s v =
      let read = snapshot_read r (numbers e) dts end beg in
      subst (Untouched laws element_of s) (sym (refused-state (read_or_throw read id item t s))) (
        read_or_throw-Untouched laws element_of read
          (snapshot_read-IsRead laws r (numbers e) (ws e) dts end beg) id item s v t)

  -- One call leaves the values and the stamps of every stream as they were.
  do_reading-Untouched : (call : Reading) → Leaves (do_reading r numbers call)
  unfolding do_reading get_generic get_generic_dts tosdb_get tosdb_get_string get_snapshot
      get_snapshot_dts get_typed_snapshot tosdb_get_stream_snapshot get_stream_snapshot
      tosdb_get_stream_snapshot_strings tosdb_get_from_marker get_from_marker
      tosdb_get_strings_from_marker tosdb_get_n_from_marker get_n_from_marker
      tosdb_get_n_strings_from_marker
  do_reading-Untouched (reads_generic id item t i) s v =
      read_or_throw-Untouched laws element_of (r.get i) (w.gets i) id item s v t
  do_reading-Untouched (reads_generic_dts id item t i) s v =
      read_or_throw-Untouched laws element_of (r.both i) (w.gets_both i) id item s v t
  do_reading-Untouched (reads_number e id item t i dest dts) s v =
      guarded (not (is_valid_block_id id && check_string_length item && check_string_length t))
        (error_bad_input, none) s _ v
        (guarded (topic_eq.beq (topic_of t) null_topic) (error_bad_topic, none) s _ v
          (get_value-Leaves e id item (topic_of t) i dest dts s v))
  do_reading-Untouched (reads_typed e id item t i) s v = get_typed-Leaves e id item t i s v
  do_reading-Untouched (reads_string id item t i n dts) s v =
      ask_stream-Untouched laws element_of ((r.strings n).copy buffer dts 1 i i)
        ((w.in_strings n).copies buffer dts 1 i i) id item s v error_get_data t
  do_reading-Untouched (snaps_generic id item t end beg) s v =
      read_or_throw-Untouched laws element_of (r.vector end beg) (w.vectors end beg) id item s v t
  do_reading-Untouched (snaps_generic_dts id item t end beg) s v =
      read_or_throw-Untouched laws element_of (vectors r end beg) (vectors-IsRead laws r w end beg)
        id item s v t
  do_reading-Untouched (snaps_typed e id item t dts end beg) s v =
      get_typed_snapshot-Leaves e id item t dts end beg s v
  do_reading-Untouched (snaps_numbers e id item t dest n dts end beg) s v =
      guarded (not (check_string_length t)) (error_bad_input, none) s _ v
        (guarded (topic_eq.beq (topic_of t) null_topic) (error_bad_topic, none) s _ v
          (guarded (not (is_valid_block_id id && check_string_length item)) (error_bad_input, none)
            s _ v
            (caught-Untouched laws element_of ((numbers e).copy dest dts n end beg)
              ((ws e).copies dest dts n end beg) id item s v error_get_data (topic_of t))))
  do_reading-Untouched (snaps_strings id item t dest n str_len dts end beg) s v =
      ask_stream-Untouched laws element_of ((r.strings str_len).copy dest dts n end beg)
        ((w.in_strings str_len).copies dest dts n end beg) id item s v error_get_data t
  do_reading-Untouched (marks_numbers e id item t dest n dts beg) s v =
      guarded (not (check_string_length t)) (pos 0, none) s _ v
        (guarded (topic_eq.beq (topic_of t) null_topic) (error_bad_topic, none) s _ v
          (guarded (not (is_valid_block_id id && check_string_length item)) (error_bad_input, none)
            s _ v
            (caught-Untouched laws element_of (sized ((numbers e).copy_from_marker dest dts n beg))
              (sized-IsRead laws _ ((ws e).marked dest dts n beg)) id item s v error_get_data
              (topic_of t))))
  do_reading-Untouched (marks_strings id item t dest n str_len dts beg) s v =
      ask_stream-Untouched laws element_of
        (sized ((r.strings str_len).copy_from_marker dest dts n beg))
        (sized-IsRead laws _ ((w.in_strings str_len).marked dest dts n beg)) id item s v
        error_get_data t
  do_reading-Untouched (counts_numbers e id item t dest n dts) s v =
      guarded (not (check_string_length t)) (pos 0, none) s _ v
        (guarded (topic_eq.beq (topic_of t) null_topic) (error_bad_topic, none) s _ v
          (guarded (not (is_valid_block_id id && check_string_length item)) (error_bad_input, none)
            s _ v
            (caught-Untouched laws element_of (sized ((numbers e).ncopy_from_marker dest dts n))
              (sized-IsRead laws _ ((ws e).counted dest dts n)) id item s v error_get_data
              (topic_of t))))
  do_reading-Untouched (counts_strings id item t dest n str_len dts) s v =
      ask_stream-Untouched laws element_of
        (sized ((r.strings str_len).ncopy_from_marker dest dts n))
        (sized-IsRead laws _ ((w.in_strings str_len).counted dest dts n)) id item s v error_get_data
        t

  -- A client whose blocks are valid stays so under any calls that read its streams, in any order,
  -- with any arguments, and whether or not they throw or return an error; and every stream keeps its
  -- values and stamps at each index.
  pub do_readings-Untouched :
      (calls : List Reading) (s : Client S)
      → AllValid laws element_of s
      → Untouched laws element_of s (do_readings r numbers calls s)
  unfolding do_readings
  do_readings-Untouched [] s v = Untouched-refl laws element_of s v
  do_readings-Untouched (call ∷ calls) s v =
      let h = do_reading-Untouched call s v in
      Untouched-trans laws element_of s (do_reading r numbers call s)
        (do_readings r numbers calls (do_reading r numbers call s)) h
        (do_readings-Untouched calls (do_reading r numbers call s) h.valid)
