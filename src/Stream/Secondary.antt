-- ===== src/Stream/Secondary.antt =====
-- include/data_stream.hpp and src/data_stream.tpp: the specialisation of `DataStream` that keeps a
-- secondary deque (date-time stamps) beside the primary one.
use tosdata_bridge.Prelude.{
  ℕ, ◌+◌, Bool, List, [], ◌∷◌, min, pop_back, resize, replicate, ◌==◌, if◌then◌else◌,
}
use tosdata_bridge.Prelude.Int.{ℤ, pos, eqb_ℤ}
use tosdata_bridge.Prelude.Action.{
  Result, ok, err, Action, pure, lift, gets, modify, throw_if, ◌>>=◌, ◌>>◌,
}
use tosdata_bridge.Stream.State
use tosdata_bridge.Stream.State.{
  Stream, StreamError, invalid_argument, check_adj, at, clamp_bound, incr_internal_counts,
}
use tosdata_bridge.Stream.Read
use tosdata_bridge.Stream.Read.{Dest, is_null, GenericType, slice, copy_to_ptr, set_mark}
use tosdata_bridge.Stream.Marker.{copy_from_marker_by, ncopy_from_marker_by}

pub record PairStream (A D : Type 0) : Type 0 where
  pub base : Stream A
  pub deque_secondary : List D

module _ {A D : Type 0} where
  -- A method of the base class.
  abbrev pub on_base :
      {R : Type 0} → Action (Stream A) StreamError R → Action (PairStream A D) StreamError R
  on_base m s = let (r, b) = m s.base in (r, record s { base = b })

  unfoldable pub new_stream : A → D → ℕ → PairStream A D
  unfolding State.new_stream
  new_stream blank blank_sec sz = record {
    base = State.new_stream blank (clamp_bound sz);
    deque_secondary = replicate (clamp_bound sz) blank_sec;
  }

  unfoldable pub copy_stream : PairStream A D → PairStream A D
  unfolding State.copy_stream
  copy_stream s = record s { base = State.copy_stream s.base }

  unfoldable pub push : Bool → A → D → PairStream A D → PairStream A D
  unfolding incr_internal_counts
  push got v sec s =
      let b = s.base in
      record {
        base =
            incr_internal_counts
              (record b { push_has_priority = got; deque = pop_back (v ∷ b.deque) });
        deque_secondary = pop_back (sec ∷ s.deque_secondary);
      }

  unfoldable pub set_bound_size : A → D → ℕ → PairStream A D → ℕ × PairStream A D
  unfolding State.set_bound_size
  set_bound_size blank blank_sec size s =
      let sz = clamp_bound size in
      let (n, b) = State.set_bound_size blank sz s.base in
      (n, record { base = b; deque_secondary = resize sz blank_sec s.deque_secondary })

  -- The second half of both copies: the same range of the secondary deque. With no place for it
  -- the count of the base class is returned.
  unfoldable pub copy_secondary :
      {R : Type 0}
      → Dest
      → ℕ
      → ℤ
      → ℤ
      → ℕ × R
      → Action (PairStream A D) StreamError (ℕ × (R × List D))
  copy_secondary sec sz end beg (n, out) = if is_null sec then pure (n, (out, [])) else (do
    (e, b) ← lift (λ s. check_adj end beg s.deque_secondary s.base.qbound)
    (k, stamps) ← lift (λ s.
        if e == b
        then elim (at s.deque_secondary b) [ ok a ↦ ok (1, a ∷ []) | err x ↦ err x ]
        else ok (copy_to_ptr s.deque_secondary sz e b s.base.qcount))
    pure (k, (out, stamps)))

  unfoldable pub copy :
      Dest → Dest → ℕ → ℤ → ℤ → Action (PairStream A D) StreamError (ℕ × (List A × List D))
  unfolding Read.copy copy_secondary
  copy dest sec sz end beg = do
    throw_if (is_null dest) invalid_argument
    out ← on_base (Read.copy dest sz end beg)
    copy_secondary sec sz end beg out

  -- `secondary`: the marker moves here too.
  unfoldable pub secondary : ℤ → Action (PairStream A D) StreamError D
  secondary indx = do
    (i, _) ← lift (λ s. check_adj indx (pos 0) s.deque_secondary s.base.qbound)
    d ← lift (λ s. at s.deque_secondary i)
    modify (λ s. record s { base = set_mark i s.base })
    pure d

  unfoldable pub secondary_vector : ℤ → ℤ → Action (PairStream A D) StreamError (List D)
  secondary_vector end beg = do
    (e, b) ← lift (λ s. check_adj end beg s.deque_secondary s.base.qbound)
    out ← gets (λ s. slice b (min (e + 1) s.base.qcount) s.deque_secondary)
    modify (λ s. record s { base = set_mark b s.base })
    pure out

  unfoldable pub copy_from_marker :
      Dest → Dest → ℕ → ℤ → Action (PairStream A D) StreamError (ℤ × (List A × List D))
  unfolding copy_from_marker_by
  copy_from_marker dest sec = copy_from_marker_by (λ s. s.base) ([], []) (copy dest sec)

  unfoldable pub ncopy_from_marker :
      Dest → Dest → ℕ → Action (PairStream A D) StreamError (ℤ × (List A × List D))
  unfolding ncopy_from_marker_by copy_from_marker_by
  ncopy_from_marker dest sec = ncopy_from_marker_by (λ s. s.base) ([], []) (copy dest sec)

module _ {A G D : Type 0} (g : GenericType A G) where
  unfoldable pub copy_strings :
      Dest
      → Dest
      → ℕ
      → ℕ
      → ℤ
      → ℤ
      → Action (PairStream A D) StreamError (ℕ × (List (List ℕ) × List D))
  unfolding Read.copy_strings copy_secondary
  copy_strings dest sec dest_sz str_sz end beg = do
    throw_if (is_null dest) invalid_argument
    out ← on_base (Read.copy_strings g dest dest_sz str_sz end beg)
    copy_secondary sec dest_sz end beg out

  unfoldable pub both : ℤ → Action (PairStream A D) StreamError (G × D)
  unfolding Read.get
  both indx = do
    a ← on_base (Read.get g indx)
    d ←
        (if eqb_ℤ indx (pos 0) then lift (λ s. at s.deque_secondary 0) else (do
          (i, _) ← lift (λ s. check_adj indx (pos 0) s.deque_secondary s.base.qbound)
          lift (λ s. at s.deque_secondary i)))
    pure (a, d)

  unfoldable pub both_leave_marker : ℤ → PairStream A D → Result StreamError (G × D)
  unfolding Read.get_leave_marker
  both_leave_marker indx s = elim (Read.get_leave_marker g indx s.base) [
    | err x ↦ err x
    | ok a ↦
        if eqb_ℤ indx (pos 0)
        then elim (at s.deque_secondary 0) [ ok d ↦ ok (a, d) | err x ↦ err x ]
        else elim (check_adj indx (pos 0) s.deque_secondary s.base.qbound) [
          | ok (i, _) ↦ elim (at s.deque_secondary i) [ ok d ↦ ok (a, d) | err x ↦ err x ]
          | err x ↦ err x
        ]
  ]
