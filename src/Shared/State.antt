-- ===== src/Shared/State.antt =====
-- src/service/engine.cpp and src/client/client_admin.cpp: the ring buffers in shared memory, which the
-- engine writes and the client reads, each under the mutex of the buffer.
use tosdata_bridge.Prelude.{
  ℕ, zero, suc, ◌+◌, ◌-◌, ◌*◌, ◌/◌, ◌%◌, ◌^◌, Bool, not, ◌&&◌, ◌||◌, List, [], ◌∷◌, ltb, leb, ◌==◌,
  if◌then◌else◌,
}
use tosdata_bridge.Prelude.Int.{ℤ, pos, pos_part, ◌+ℤ◌, ◌-ℤ◌, ltb_ℤ, to_int, mul_ℕ, quot_ℕ, rem_ℕ}
use tosdata_bridge.Prelude.Action.{Result, ok, err}

-- `TOSDB_BufferError`.
pub data BufferError : Type 0 where
  buffer_error : BufferError

-- `unsigned int`.
abbrev pub uint : ℕ → ℕ
uint n = n % 2 ^ 32

-- a - b in `unsigned int`.
abbrev pub uint_sub : ℕ → ℕ → ℕ
uint_sub a b = uint (a + (2 ^ 32 - b))

-- `BufferHead`, and the memory behind it: what stands at each offset, a value with its stamp.
pub record Buffer (X : Type 0) : Type 0 where
  pub loop_seq : ℕ
  pub elem_size : ℕ
  pub beg_offset : ℕ
  pub end_offset : ℕ
  pub next_offset : ℕ
  pub memory : ℕ → X

-- The first two fields of `buffer_info_ty`.
pub record Reader : Type 0 where
  pub last_pos : ℕ
  pub last_seq : ℕ

-- `sizeof(BufferHead)` and `sizeof(DateTimeStamp)` on Windows.
abbrev pub head_size : ℕ
head_size = 20

abbrev pub stamp_size : ℕ
stamp_size = 40

-- `_captureBuffer` begins with this.
abbrev pub new_reader : Reader
new_reader = record { last_pos = 0; last_seq = 0 }

-- `CreateBuffer` fills the head, of memory of this size for elements of this size.
unfoldable pub fill_head : {X : Type 0} → X → ℕ → ℕ → Buffer X
fill_head blank raw_sz elem_size = record {
  loop_seq = 0;
  elem_size = elem_size;
  beg_offset = head_size;
  end_offset = uint (head_size + uint_sub raw_sz head_size / elem_size * elem_size);
  next_offset = head_size;
  memory = λ offset. blank;
}

-- The memory is at least one page.
unfoldable pub create_buffer : {X : Type 0} → X → ℕ → ℕ → ℕ → Buffer X
unfolding fill_head
create_buffer blank page_size buffer_sz type_size =
    fill_head blank (if ltb buffer_sz page_size then page_size else buffer_sz)
      (uint (type_size + stamp_size))

-- The head after a write: the last place is followed by the first.
unfoldable pub advance : {X : Type 0} → Buffer X → Buffer X
advance b =
    if leb b.end_offset (uint (b.next_offset + b.elem_size))
    then record b { next_offset = b.beg_offset; loop_seq = uint (b.loop_seq + 1) }
    else record b { next_offset = uint (b.next_offset + b.elem_size) }

-- `RouteToBuffer`, for a buffer that exists.
unfoldable pub route_to_buffer : {X : Type 0} → X → Buffer X → Buffer X
unfolding advance
route_to_buffer x b =
    advance (record b { memory = λ offset. if offset == b.next_offset then x else b.memory offset })

-- The offset of the element that was written so many before the next.
unfoldable pub spot : {X : Type 0} → Buffer X → ℕ → ℕ → ℕ
spot b dlen nelems =
    pos_part (rem_ℕ (pos b.next_offset -ℤ pos (nelems * b.elem_size) +ℤ pos dlen) dlen)

-- The loop over the elements, last first.
unfoldable pub extract_loop : {X : Type 0} → Buffer X → ℕ → ℕ → List X
unfolding spot
extract_loop b dlen zero = []
extract_loop b dlen (suc k) = b.memory (spot b dlen (suc k)) ∷ extract_loop b dlen k

-- The difference of the laps, mended if it is negative.
unfoldable pub wrap_loops : ℤ → ℤ
wrap_loops diff = if ltb_ℤ diff (pos 0) then diff +ℤ pos (2 ^ 32) else diff

-- How many elements have been written since the last read, from the position now and the one then,
-- the difference of the laps, the length of the ring and the size of an element.
unfoldable pub elems_between : ℕ → ℕ → ℕ → ℕ → ℕ → ℤ
unfolding wrap_loops
elems_between now last diff dlen elem_size =
    let npos = to_int (pos (uint_sub now last)) in
    quot_ℕ (npos +ℤ mul_ℕ (wrap_loops (pos diff)) dlen) elem_size

unfoldable pub count_elems : {X : Type 0} → Reader → Buffer X → ℕ → ℤ
unfolding elems_between
count_elems r b dlen =
    elems_between (uint_sub b.next_offset b.beg_offset) r.last_pos (uint_sub b.loop_seq r.last_seq)
      dlen b.elem_size

-- The present values, which a read leaves.
unfoldable pub synced : {X : Type 0} → Buffer X → Reader
synced b = record { last_pos = uint_sub b.next_offset b.beg_offset; last_seq = b.loop_seq }

-- What is read, where so many elements are new.
unfoldable pub extract_new :
    {X : Type 0} → Reader → Buffer X → ℕ → ℤ → Result BufferError (List X) × Reader
unfolding extract_loop synced
extract_new r b dlen nelems =
    if pos_part nelems == 0 && not (ltb_ℤ nelems (pos 0))
    then (ok [], r)
    else if ltb_ℤ nelems (pos 0)
    then (err buffer_error, r)
    else (
      ok (
          extract_loop b dlen (
            if leb (dlen / b.elem_size) (pos_part nelems)
            then dlen / b.elem_size
            else pos_part nelems)),
      synced b,
    )

-- `_extractFromBuffer`: the elements that it inserts into the blocks, in the order in which it does;
-- `busy` is the answer of `WaitForSingleObject`.
unfoldable pub extract_from_buffer :
    {X : Type 0} → Bool → Reader → Buffer X → Result BufferError (List X) × Reader
unfolding extract_new count_elems
extract_from_buffer busy r b =
    if (uint_sub b.next_offset b.beg_offset == r.last_pos && b.loop_seq == r.last_seq) || busy
    then (ok [], r)
    else (let dlen = uint_sub b.end_offset b.beg_offset in
        extract_new r b dlen (count_elems r b dlen))
