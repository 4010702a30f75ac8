-- ===== src/Elements/Moving.antt =====
-- The reads of the streams (include/data_stream.hpp and src/data_stream.tpp) change no more than the
-- marker: the streams of either class.
use tosdata_bridge.Prelude.{ℕ, ◌≡◌, refl, sym, subst, ◌∙◌, ◌||◌, if_ind, inl, inr}
use tosdata_bridge.Prelude.Int.{ℤ, pos, ◌+ℤ◌, ◌-ℤ◌, ltb_ℤ, to_int}
use tosdata_bridge.Prelude.Action.{Result, ok, err, Action, ◌>>=◌}
use tosdata_bridge.Stream.State.{Stream, StreamError}
use tosdata_bridge.Stream.Read.{set_mark}
use tosdata_bridge.Stream.Marker.{first_index, sign_count, copy_from_marker_by}
use tosdata_bridge.Stream.Invariant.{IsValid}
use tosdata_bridge.Stream.Reads.{Moved, Moved-IsValid, sign_count-state}
use tosdata_bridge.Stream.Secondary.{PairStream}
use tosdata_bridge.Stream.Paired.{IsPaired}

-- An action whose steps are all related by a transitive relation.
after_ind :
    {S E A B : Type 0} (R : S → S → Type 0)
    → ((a b d : S) → R a b → R b d → R a d)
    → (f : A → Action S E B) → ((a : A) (s : S) → R s (f a s).1)
    → (s : S) (p : Result E A × S) → R s p.1
    → R s (((λ (q : S). p) >>= f) s).1
after_ind R trans f g s (ok a, t) h = trans s t (f a t).1 h (g a t)
after_ind R trans f g s (err e, t) h = h

pub bind_ind :
    {S E A B : Type 0} (R : S → S → Type 0)
    → ((a b d : S) → R a b → R b d → R a d)
    → (m : Action S E A) (f : A → Action S E B) → ((s : S) → R s (m s).1)
    → ((a : A) (s : S) → R s (f a s).1)
    → (s : S) → R s ((m >>= f) s).1
bind_ind R trans m f h g s = after_ind R trans f g s (m s) (h s)

module _ {S A B : Type 0} (R : S → S → Type 0) (base : S → Stream A) (nothing : B)
    (copy_virtual : ℕ → ℤ → ℤ → Action S StreamError (ℕ × B)) where
  -- The reads from the marker change what the copy changes.
  pub copy_from_marker_by_ind :
      (sz : ℕ) (beg : ℤ) (s : S)
      → R s s
      → ((n : ℕ) (end first : ℤ) → R s (copy_virtual n end first s).1)
      → R s (copy_from_marker_by base nothing copy_virtual sz beg s).1
  unfolding copy_from_marker_by
  copy_from_marker_by_ind sz beg s same h =
      let first = first_index beg (base s).qcount in
      let req_sz = (base s).mark_count -ℤ first +ℤ pos 1 in
      let out = copy_virtual sz (to_int (base s).mark_count) first s in
      if_ind (λ (r : Result StreamError (ℤ × B) × S). R s r.1)
        (ltb_ℤ first (pos 0) || ltb_ℤ req_sz (pos 1)) (ok (pos 0, nothing), s)
        (sign_count (base s).mark_is_dirty req_sz out) same
        (subst (R s) (sym (sign_count-state (base s).mark_is_dirty req_sz out))
          (h sz (to_int (base s).mark_count) first))

module _ {A : Type 0} where
  -- A valid stream stays valid, with the same elements, bound and count.
  abbrev pub Kept : Stream A → Stream A → Type 0
  Kept s t =
      IsValid s → IsValid t × (t.deque ≡ s.deque) × (t.qbound ≡ s.qbound) × (t.qcount ≡ s.qcount)

  pub Kept_refl : (s : Stream A) → Kept s s
  Kept_refl s v = (v, refl, refl, refl)

  pub Kept_trans : (a b d : Stream A) → Kept a b → Kept b d → Kept a d
  Kept_trans a b d h g v =
      let (v1, e1, e2, e3) = h v in let (v2, f1, f2, f3) = g v1 in (v2, f1 ∙ e1, f2 ∙ e2, f3 ∙ e3)

  pub Moved-Kept : {s t : Stream A} → (IsValid s → Moved s t) → Kept s t
  unfolding set_mark
  Moved-Kept {s} {t} h v = elim (h v) [
    | inl e ↦ subst (λ r. Kept s r) (sym e) (λ w. (w, refl, refl, refl)) v
    | inr (b, g, e) ↦
        let w = Moved-IsValid v (inr (b, g, e)) in
        subst
          (λ r.
            IsValid r
            → IsValid r × (r.deque ≡ s.deque) × (r.qbound ≡ s.qbound) × (r.qcount ≡ s.qcount))
          (sym e) (λ x. (x, refl, refl, refl)) w
  ]

module _ {A D : Type 0} where
  -- The same of a stream with stamps.
  abbrev pub KeptPair : PairStream A D → PairStream A D → Type 0
  KeptPair s t =
      IsPaired s
      → IsPaired t
        × (t.base.deque ≡ s.base.deque)
        × (t.base.qbound ≡ s.base.qbound)
        × (t.base.qcount ≡ s.base.qcount)
        × (t.deque_secondary ≡ s.deque_secondary)

  pub KeptPair-refl : (s : PairStream A D) → KeptPair s s
  KeptPair-refl s v = (v, refl, refl, refl, refl)

  pub KeptPair-trans : (a b d : PairStream A D) → KeptPair a b → KeptPair b d → KeptPair a d
  KeptPair-trans a b d h g v =
      let (v1, e1, e2, e3, e4) = h v in
      let (v2, f1, f2, f3, f4) = g v1 in (v2, f1 ∙ e1, f2 ∙ e2, f3 ∙ e3, f4 ∙ e4)

  pub Kept-KeptPair :
      (s : PairStream A D) (b : Stream A) → Kept s.base b → KeptPair s (record s { base = b })
  Kept-KeptPair s b h v =
      let (w, e1, e2, e3) = h v.valid in
      (record { valid = w; full_secondary = v.full_secondary ∙ sym e2 }, e1, e2, e3, refl)
