-- ===== src/Stream/Marker.antt =====
-- src/data_stream.tpp: `copy_from_marker` and `ncopy_from_marker`, the reads of what has come in
-- since the last read. They call the virtual `copy`, so they are written over the `copy` of the
-- object: that of either class, into elements or into strings. `nothing` is what an early return
-- leaves written.
use tosdata_bridge.Prelude.{ℕ, Bool, ◌||◌, List, [], if◌then◌else◌}
use tosdata_bridge.Prelude.Int.{ℤ, pos, ◌+ℤ◌, ◌-ℤ◌, ltb_ℤ, max_ℤ, neg, to_int}
use tosdata_bridge.Prelude.Action.{Result, ok, err, Action, pure}
use tosdata_bridge.Stream.State.{Stream, StreamError}
use tosdata_bridge.Stream.Read.{Dest, GenericType, copy, copy_strings}

-- A negative start counts from the end of what has come in.
unfoldable pub first_index : ℤ → ℕ → ℤ
first_index beg qcount = if ltb_ℤ beg (pos 0) then beg +ℤ to_int (pos qcount) else beg

-- `(int)(*_mark_count - sz + 1)`, or 0: in `size_t`, where the low 32 bits are those of the exact
-- difference.
unfoldable pub last_index : ℤ → ℕ → ℤ
last_index mark sz = max_ℤ (to_int (mark -ℤ pos sz +ℤ pos 1)) (pos 0)

-- The sign of the count: negative, if the marker was dirty or too few elements were copied.
unfoldable pub sign_count :
    {S R : Type 0} → Bool → ℤ → Result StreamError (ℕ × R) × S → Result StreamError (ℤ × R) × S
sign_count was_dirty req_sz (ok (n, out), s) =
    (ok (if was_dirty || ltb_ℤ (pos n) req_sz then neg (pos n) else pos n, out), s)
sign_count was_dirty req_sz (err e, s) = (err e, s)

module _ {A S R : Type 0} (base : S → Stream A) (nothing : R)
    (copy_virtual : ℕ → ℤ → ℤ → Action S StreamError (ℕ × R)) where
  unfoldable pub copy_from_marker_by : ℕ → ℤ → Action S StreamError (ℤ × R)
  unfolding first_index sign_count
  copy_from_marker_by sz beg s =
      let was_dirty = (base s).mark_is_dirty in
      let mark = (base s).mark_count in
      let first = first_index beg (base s).qcount in
      let req_sz = mark -ℤ first +ℤ pos 1 in
      if ltb_ℤ first (pos 0) || ltb_ℤ req_sz (pos 1)
      then pure (pos 0, nothing) s
      else sign_count was_dirty req_sz (copy_virtual sz (to_int mark) first s)

  -- At most `sz` elements, the oldest of the new ones.
  unfoldable pub ncopy_from_marker_by : ℕ → Action S StreamError (ℤ × R)
  unfolding last_index
  ncopy_from_marker_by sz s = copy_from_marker_by sz (last_index (base s).mark_count sz) s

module _ {A : Type 0} where
  unfoldable pub copy_from_marker : Dest → ℕ → ℤ → Action (Stream A) StreamError (ℤ × List A)
  unfolding copy_from_marker_by
  copy_from_marker dest = copy_from_marker_by (λ s. s) [] (copy dest)

  unfoldable pub ncopy_from_marker : Dest → ℕ → Action (Stream A) StreamError (ℤ × List A)
  unfolding ncopy_from_marker_by copy_from_marker
  ncopy_from_marker dest = ncopy_from_marker_by (λ s. s) [] (copy dest)

module _ {A G : Type 0} (g : GenericType A G) where
  unfoldable pub copy_strings_from_marker :
      Dest → ℕ → ℕ → ℤ → Action (Stream A) StreamError (ℤ × List (List ℕ))
  unfolding copy_from_marker_by
  copy_strings_from_marker dest dest_sz str_sz =
      copy_from_marker_by (λ s. s) [] (λ n. copy_strings g dest n str_sz) dest_sz

  unfoldable pub ncopy_strings_from_marker :
      Dest → ℕ → ℕ → Action (Stream A) StreamError (ℤ × List (List ℕ))
  unfolding ncopy_from_marker_by copy_from_marker_by
  ncopy_strings_from_marker dest dest_sz str_sz =
      ncopy_from_marker_by (λ s. s) [] (λ n. copy_strings g dest n str_sz) dest_sz
