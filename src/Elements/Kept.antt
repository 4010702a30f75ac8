-- ===== src/Elements/Kept.antt =====
-- The reads of the streams (include/data_stream.hpp and src/data_stream.tpp), one by one: a valid stream
-- stays valid, with the same elements.
use tosdata_bridge.Prelude.{
  ℕ, ◌≡◌, refl, sym, subst, ◌∙◌, Bool, true, false, [], arith, ◌≤◌, if◌then◌else◌, inl, inr,
}
use tosdata_bridge.Prelude.Int.{ℤ, pos, eqb_ℤ}
use tosdata_bridge.Prelude.Action.{ok, Action, ◌>>=◌, pure, lift, throw_if, Result-cases}
use tosdata_bridge.Stream.State.{Stream, StreamError, invalid_argument, check_adj, at}
use tosdata_bridge.Stream.Read
use tosdata_bridge.Stream.Read.{Dest, null, buffer, is_null, GenericType, set_mark, copy_to_ptr}
use tosdata_bridge.Stream.Marker
use tosdata_bridge.Stream.Marker.{last_index}
use tosdata_bridge.Stream.Reads.{
  copy-Moved, copy_strings-Moved, vector-Moved, get-Moved, copy_from_marker-Moved,
  ncopy_from_marker-Moved,
}
use tosdata_bridge.Stream.Secondary
use tosdata_bridge.Stream.Secondary.{PairStream, on_base, copy_secondary}
use tosdata_bridge.Stream.Paired.{IsPaired, check_adj-length}
use tosdata_bridge.Stream.Index.{check_adj_iff}
use tosdata_bridge.Stream.Invariant.{set_mark-IsValid}
use tosdata_bridge.Elements.Copies.{stamped_strings_from_marker, stamped_n_strings_from_marker}
use tosdata_bridge.Elements.Moving.{
  Kept, Kept_refl, Moved-Kept, KeptPair, KeptPair-refl, KeptPair-trans, Kept-KeptPair, bind_ind,
  copy_from_marker_by_ind,
}

pub throw_if_ind :
    {S : Type 0} (R : S → S → Type 0) (s : S)
    → R s s
    → (b : Bool) (e : StreamError) → R s (throw_if b e s).1
throw_if_ind R s h true e = h
throw_if_ind R s h false e = h

module _ {A : Type 0} where
  pub copy-Kept :
      (dest : Dest) (sz : ℕ) (end beg : ℤ) (s : Stream A) → Kept s (Read.copy dest sz end beg s).1
  copy-Kept dest sz end beg s = Moved-Kept (λ v. copy-Moved v sz dest end beg)

  pub copy_from_marker-Kept :
      (dest : Dest) (sz : ℕ) (beg : ℤ) (s : Stream A)
      → Kept s (Marker.copy_from_marker dest sz beg s).1
  copy_from_marker-Kept dest sz beg s = Moved-Kept (λ v. copy_from_marker-Moved v sz dest beg)

  pub ncopy_from_marker-Kept :
      (dest : Dest) (sz : ℕ) (s : Stream A) → Kept s (Marker.ncopy_from_marker dest sz s).1
  ncopy_from_marker-Kept dest sz s = Moved-Kept (λ v. ncopy_from_marker-Moved v sz dest)

module _ {A G : Type 0} (g : GenericType A G) where
  pub copy_strings-Kept :
      (dest : Dest) (sz str_sz : ℕ) (end beg : ℤ) (s : Stream A)
      → Kept s (Read.copy_strings g dest sz str_sz end beg s).1
  copy_strings-Kept dest sz str_sz end beg s =
      Moved-Kept (λ v. copy_strings-Moved g v dest sz str_sz end beg)

  pub vector-Kept : (end beg : ℤ) (s : Stream A) → Kept s (Read.vector g end beg s).1
  vector-Kept end beg s = Moved-Kept (λ v. vector-Moved g v end beg)

  pub get-Kept : (i : ℤ) (s : Stream A) → Kept s (Read.get g i s).1
  get-Kept i s = Moved-Kept (λ v. get-Moved g v i)

  pub copy_strings_from_marker-Kept :
      (dest : Dest) (sz str_sz : ℕ) (beg : ℤ) (s : Stream A)
      → Kept s (Marker.copy_strings_from_marker g dest sz str_sz beg s).1
  unfolding Marker.copy_strings_from_marker
  copy_strings_from_marker-Kept dest sz str_sz beg s =
      copy_from_marker_by_ind Kept (λ s. s) [] (λ n. Read.copy_strings g dest n str_sz) sz beg s
        (Kept_refl s) (λ n end first. copy_strings-Kept dest n str_sz end first s)

  pub ncopy_strings_from_marker-Kept :
      (dest : Dest) (sz str_sz : ℕ) (s : Stream A)
      → Kept s (Marker.ncopy_strings_from_marker g dest sz str_sz s).1
  unfolding Marker.ncopy_strings_from_marker Marker.ncopy_from_marker_by
      Marker.copy_strings_from_marker
  ncopy_strings_from_marker-Kept dest sz str_sz s =
      copy_strings_from_marker-Kept dest sz str_sz (last_index s.mark_count sz) s

module _ {A D : Type 0} where
  pub on_base-KeptPair :
      {R : Type 0} (m : Action (Stream A) StreamError R)
      → ((s : Stream A) → Kept s (m s).1)
      → (s : PairStream A D) → KeptPair s (on_base m s).1
  on_base-KeptPair m h s = Kept-KeptPair s (m s.base).1 (h s.base)

  copy_secondary-state :
      {R : Type 0} (sec : Dest) (sz : ℕ) (end beg : ℤ) (out : ℕ × R) (s : PairStream A D)
      → (copy_secondary sec sz end beg out s).1 ≡ s
  unfolding copy_secondary
  copy_secondary-state null sz end beg out s = refl
  copy_secondary-state buffer sz end beg out s = ground arith

  with_stamps-KeptPair :
      {R : Type 0} (m : Action (Stream A) StreamError (ℕ × R)) (dest sec : Dest) (sz : ℕ)
      (end beg : ℤ)
      → ((s : Stream A) → Kept s (m s).1)
      → (s : PairStream A D)
      → KeptPair s
          ((throw_if (is_null dest) invalid_argument >>= λ _.
              (on_base m >>= copy_secondary sec sz end beg))
            s).1
  with_stamps-KeptPair m dest sec sz end beg h =
      bind_ind KeptPair KeptPair-trans (throw_if (is_null dest) invalid_argument)
        (λ _. (on_base m >>= copy_secondary sec sz end beg))
        (λ s. throw_if_ind KeptPair s (KeptPair-refl s) (is_null dest) invalid_argument)
        (λ _.
          bind_ind KeptPair KeptPair-trans (on_base m) (copy_secondary sec sz end beg)
            (on_base-KeptPair m h)
            (λ out s.
              subst (KeptPair s) (sym (copy_secondary-state sec sz end beg out s))
                (KeptPair-refl s)))

  pub copy-KeptPair :
      (dest sec : Dest) (sz : ℕ) (end beg : ℤ) (s : PairStream A D)
      → KeptPair s (Secondary.copy dest sec sz end beg s).1
  unfolding Secondary.copy
  copy-KeptPair dest sec sz end beg =
      with_stamps-KeptPair (Read.copy dest sz end beg) dest sec sz end beg
        (copy-Kept dest sz end beg)

  pub copy_from_marker-KeptPair :
      (dest sec : Dest) (sz : ℕ) (beg : ℤ) (s : PairStream A D)
      → KeptPair s (Secondary.copy_from_marker dest sec sz beg s).1
  unfolding Secondary.copy_from_marker
  copy_from_marker-KeptPair dest sec sz beg s =
      copy_from_marker_by_ind KeptPair (λ s. s.base) ([], []) (Secondary.copy dest sec) sz beg s
        (KeptPair-refl s) (λ n end first. copy-KeptPair dest sec n end first s)

  pub ncopy_from_marker-KeptPair :
      (dest sec : Dest) (sz : ℕ) (s : PairStream A D)
      → KeptPair s (Secondary.ncopy_from_marker dest sec sz s).1
  unfolding Secondary.ncopy_from_marker Marker.ncopy_from_marker_by Secondary.copy_from_marker
  ncopy_from_marker-KeptPair dest sec sz s =
      copy_from_marker-KeptPair dest sec sz (last_index s.base.mark_count sz) s

  set_mark-KeptPair :
      (b : ℕ) (s : PairStream A D)
      → (IsPaired s → b ≤ s.base.qbound)
      → KeptPair s (record s { base = set_mark b s.base })
  unfolding set_mark
  set_mark-KeptPair b s h v = (
    record { valid = set_mark-IsValid b v.valid (h v); full_secondary = v.full_secondary },
    refl,
    refl,
    refl,
    refl,
  )

  position :
      {s : PairStream A D} (v : IsPaired s) (end beg : ℤ) (e b : ℕ)
      → check_adj end beg s.deque_secondary s.base.qbound ≡ ok (e, b)
      → b ≤ s.base.qbound
  position {s} v end beg e b h =
      let k =
        check_adj-length end beg s.base.qbound s.base.deque s.deque_secondary (omega (arith, v))
        ∙ h in
      let q = (check_adj_iff v.valid end beg e b).0 k in omega (arith, q)

  -- `secondary_vector` puts the marker before a position of the stream, or changes nothing.
  pub secondary_vector-KeptPair :
      (end beg : ℤ) (s : PairStream A D) → KeptPair s (Secondary.secondary_vector end beg s).1
  unfolding Secondary.secondary_vector
  secondary_vector-KeptPair end beg s v =
      elim (Result-cases (check_adj end beg s.deque_secondary s.base.qbound)) [
        | inl ((e, b), h) ↦
            let q : (Secondary.secondary_vector end beg s).1
                ≡ record s { base = set_mark b s.base } =
              ground (arith, h) in
            subst (KeptPair s) (sym q) (set_mark-KeptPair b s (λ p. position p end beg e b h)) v
        | inr (x, h) ↦
            let q : (Secondary.secondary_vector end beg s).1 ≡ s = ground (arith, h) in
            subst (KeptPair s) (sym q) (KeptPair-refl s) v
      ]

module _ {A G D : Type 0} (g : GenericType A G) where
  pub copy_strings-KeptPair :
      (dest sec : Dest) (sz str_sz : ℕ) (end beg : ℤ) (s : PairStream A D)
      → KeptPair s (Secondary.copy_strings g dest sec sz str_sz end beg s).1
  unfolding Secondary.copy_strings
  copy_strings-KeptPair dest sec sz str_sz end beg =
      with_stamps-KeptPair (Read.copy_strings g dest sz str_sz end beg) dest sec sz end beg
        (copy_strings-Kept g dest sz str_sz end beg)

  pub stamped_strings_from_marker-KeptPair :
      (dest sec : Dest) (sz str_sz : ℕ) (beg : ℤ) (s : PairStream A D)
      → KeptPair s (stamped_strings_from_marker g dest sec sz str_sz beg s).1
  unfolding stamped_strings_from_marker
  stamped_strings_from_marker-KeptPair dest sec sz str_sz beg s =
      copy_from_marker_by_ind KeptPair (λ s. s.base) ([], [])
        (λ n. Secondary.copy_strings g dest sec n str_sz) sz beg s (KeptPair-refl s)
        (λ n end first. copy_strings-KeptPair dest sec n str_sz end first s)

  pub stamped_n_strings_from_marker-KeptPair :
      (dest sec : Dest) (sz str_sz : ℕ) (s : PairStream A D)
      → KeptPair s (stamped_n_strings_from_marker g dest sec sz str_sz s).1
  unfolding stamped_n_strings_from_marker Marker.ncopy_from_marker_by stamped_strings_from_marker
  stamped_n_strings_from_marker-KeptPair dest sec sz str_sz s =
      stamped_strings_from_marker-KeptPair dest sec sz str_sz (last_index s.base.mark_count sz) s

  -- The second half of `both`.
  abbrev stamp_of : ℤ → Action (PairStream A D) StreamError D
  stamp_of indx = if eqb_ℤ indx (pos 0) then lift (λ s. at s.deque_secondary 0) else (do
    (i, _) ← lift (λ s. check_adj indx (pos 0) s.deque_secondary s.base.qbound)
    lift (λ s. at s.deque_secondary i))

  stamp_of-state : (i : ℤ) (s : PairStream A D) → (stamp_of i s).1 ≡ s
  stamp_of-state i s = ground arith

  pub both-KeptPair : (i : ℤ) (s : PairStream A D) → KeptPair s (Secondary.both g i s).1
  unfolding Secondary.both
  both-KeptPair i =
      bind_ind KeptPair KeptPair-trans (on_base (Read.get g i))
        (λ a. stamp_of i >>= λ d. pure (a, d)) (on_base-KeptPair (Read.get g i) (get-Kept g i))
        (λ a.
          bind_ind KeptPair KeptPair-trans (stamp_of i) (λ d. pure (a, d))
            (λ s. subst (KeptPair s) (sym (stamp_of-state i s)) (KeptPair-refl s))
            (λ d s. KeptPair-refl s))
