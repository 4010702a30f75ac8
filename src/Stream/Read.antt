-- ===== src/Stream/Read.antt =====
-- include/data_stream.hpp and src/data_stream.tpp: the reads of a `DataStream` without a secondary
-- deque: `copy`, `operator[]`, `both`, `get_leave_marker`, `both_leave_marker`, `vector` and
-- `secondary_vector`. The reads are `const`, and move the marker all the same.
use tosdata_bridge.Prelude.{
  ℕ, zero, suc, ◌+◌, ◌-◌, ◌%◌, ◌^◌, Bool, true, false, List, [], ◌∷◌, map, min, length, take, drop,
  replicate, ltb, ◌==◌, if◌then◌else◌,
}
use tosdata_bridge.Prelude.Int.{ℤ, pos, ◌-ℤ◌, eqb_ℤ, size_mod}
use tosdata_bridge.Prelude.Action.{
  Result, ok, err, Action, pure, lift, gets, modify, throw_if, ◌>>=◌, ◌>>◌,
}
use tosdata_bridge.Stream.State.{Stream, StreamError, invalid_argument, check_adj, at}

-- The pointer that a caller gives for the result.
pub data Dest : Type 0 where
  null buffer : Dest

abbrev pub is_null : Dest → Bool
is_null null = true
is_null buffer = false

-- What the streams use of `TOSDB_Generic`: its constructor from a value, and its text.
pub record GenericType (A G : Type 0) : Type 0 where
  pub of_value : A → G
  pub as_string : G → List ℕ

-- The elements from `beg` up to, and without, `end`; none if they are crossed.
abbrev pub slice : {A : Type 0} → ℕ → ℕ → List A → List A
slice beg end d = if ltb beg end then take (end - beg) (drop beg d) else []

-- `_copy_to_ptr`: how many elements it writes to `dest`, and which.
unfoldable pub copy_to_ptr : {A : Type 0} → List A → ℕ → ℕ → ℕ → ℕ → ℕ × List A
copy_to_ptr d sz end beg qcount =
    let last = min ((sz + beg) % size_mod) (min ((end + 1) % 2 ^ 32) qcount) in
    (if ltb beg last then last - beg else 0, slice beg last d)

-- `strncpy_s(dest, str_sz, s, min(str_sz - 1, s.length()))`.
abbrev pub clip_string : ℕ → List ℕ → List ℕ
clip_string str_sz s = take (min ((str_sz + size_mod - 1) % size_mod) (length s)) s

-- The loop of the string `copy`.
unfoldable pub fill_strings : {A : Type 0} → (A → List ℕ) → ℕ → List A → List (List ℕ)
fill_strings text zero xs = []
fill_strings text (suc n) [] = []
fill_strings text (suc n) (x ∷ xs) = text x ∷ fill_strings text n xs

module _ {A : Type 0} where
  -- The end of each read: the marker goes to just before the first element read, and is clean.
  unfoldable pub set_mark : ℕ → Stream A → Stream A
  set_mark beg s = record s { mark_count = pos beg -ℤ pos 1; mark_is_dirty = false }

  -- `copy` into an array of the element type: the count it returns, and what it writes.
  unfoldable pub copy : Dest → ℕ → ℤ → ℤ → Action (Stream A) StreamError (ℕ × List A)
  copy dest sz end beg = do
    throw_if (is_null dest) invalid_argument
    (e, b) ← lift (λ s. check_adj end beg s.deque s.qbound)
    out ← lift (λ s.
        if e == b
        then elim (at s.deque b) [ ok a ↦ ok (1, a ∷ []) | err x ↦ err x ]
        else ok (copy_to_ptr s.deque sz e b s.qcount))
    modify (set_mark b)
    pure out

module _ {A G : Type 0} (g : GenericType A G) where
  -- `copy` into an array of strings.
  unfoldable pub copy_strings :
      Dest → ℕ → ℕ → ℤ → ℤ → Action (Stream A) StreamError (ℕ × List (List ℕ))
  copy_strings dest dest_sz str_sz end beg = do
    throw_if (is_null dest) invalid_argument
    (e, b) ← lift (λ s. check_adj end beg s.deque s.qbound)
    out ← gets (λ s.
        fill_strings (λ a. clip_string str_sz (g.as_string (g.of_value a))) dest_sz
          (slice b (min (e + 1) s.qcount) s.deque))
    modify (set_mark b)
    pure (length out, out)

  -- `operator[]`.
  unfoldable pub get : ℤ → Action (Stream A) StreamError G
  get indx =
      if eqb_ℤ indx (pos 0)
      then (do modify (set_mark 0); a ← lift (λ s. at s.deque 0); pure (g.of_value a))
      else (do
        (i, _) ← lift (λ s. check_adj indx (pos 0) s.deque s.qbound)
        modify (set_mark i)
        a ← lift (λ s. at s.deque i)
        pure (g.of_value a))

  -- `get_leave_marker`.
  unfoldable pub get_leave_marker : ℤ → Stream A → Result StreamError G
  get_leave_marker indx s =
      if eqb_ℤ indx (pos 0)
      then elim (at s.deque 0) [ ok a ↦ ok (g.of_value a) | err x ↦ err x ]
      else elim (check_adj indx (pos 0) s.deque s.qbound) [
        | ok (i, _) ↦ elim (at s.deque i) [ ok a ↦ ok (g.of_value a) | err x ↦ err x ]
        | err x ↦ err x
      ]

  module _ {D : Type 0} (blank : D) where
    -- `both` and `both_leave_marker`: the secondary value is the default one.
    unfoldable pub both : ℤ → Action (Stream A) StreamError (G × D)
    both indx = do a ← get indx; pure (a, blank)

    unfoldable pub both_leave_marker : ℤ → Stream A → Result StreamError (G × D)
    both_leave_marker indx s = elim (get_leave_marker indx s) [
      | ok a ↦ ok (a, blank)
      | err x ↦ err x
    ]

  -- `vector`.
  unfoldable pub vector : ℤ → ℤ → Action (Stream A) StreamError (List G)
  vector end beg = do
    (e, b) ← lift (λ s. check_adj end beg s.deque s.qbound)
    out ← gets (λ s. map g.of_value (slice b (min (e + 1) s.qcount) s.deque))
    modify (set_mark b)
    pure out

-- `secondary_vector`: default values, as many as were asked for, at most `_qcount`.
unfoldable pub secondary_vector :
    {A D : Type 0} → D → ℤ → ℤ → Stream A → Result StreamError (List D)
secondary_vector blank end beg s = elim (check_adj end beg s.deque s.qbound) [
  | ok (e, b) ↦ ok (replicate (min (e + 1 - b) s.qcount) blank)
  | err x ↦ err x
]
