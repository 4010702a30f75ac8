-- ===== src/Elements/Laws.antt =====
-- The laws of the interface class (include/data_stream.hpp) that a block relies on, for the streams.
use tosdata_bridge.Prelude.{ℕ, ◌≡◌, refl, sym, ap, subst, ◌∙◌, Bool, true, false, arith, inl}
use tosdata_bridge.Prelude.Int.{pos}
use tosdata_bridge.Prelude.Action.{ok}
use tosdata_bridge.Stream.State
use tosdata_bridge.Stream.State.{Stream, StreamError, clamp_bound, type_error}
use tosdata_bridge.Stream.Read
use tosdata_bridge.Stream.Read.{GenericType, get_leave_marker}
use tosdata_bridge.Stream.Secondary
use tosdata_bridge.Stream.Secondary.{PairStream}
use tosdata_bridge.Stream.Invariant.{
  IsValid, new_stream-IsValid, push-IsValid, set_bound_size-IsValid,
}
use tosdata_bridge.Stream.Index.{Names}
use tosdata_bridge.Stream.Reads.{get-Names, get_leave_marker-get}
use tosdata_bridge.Stream.Paired.{
  IsPaired, new_stream-IsPaired, push-IsPaired, set_bound_size-IsPaired, both-Names,
}
use tosdata_bridge.Block.Interface.{StreamLaws, HasShape}
use tosdata_bridge.Topics.Enum.{ElementType}
use tosdata_bridge.Elements.Push
use tosdata_bridge.Elements.Push.{Element, Pushed, delivered, still_calling}
use tosdata_bridge.Elements.Overloads.{accepted, outcome, dispatch-accepted}
use tosdata_bridge.Elements.Any.{
  Values, AnyStream, plain, dated, Argument, typed, generic_value, make, resize, resolve, deliver,
  push, leave_marker, both_leave, element, is_dated, bound_size, data_stream,
}

module _ {F R G D : Type 0} (vs : Values F R G D) where
  -- A valid stream whose count of string pushes is clear.
  abbrev pub IsSound : AnyStream F R D → Type 0
  IsSound (plain e k s) = IsValid s × (k ≡ 0)
  IsSound (dated e k s) = IsPaired s × (k ≡ 0)

  pub make-IsSound : (e : ElementType) (d : Bool) (n : ℕ) → IsSound (make vs e d n)
  unfolding make
  make-IsSound e true n = (new_stream-IsPaired (vs.blank e) vs.blank_stamp n, refl)
  make-IsSound e false n = (new_stream-IsValid (vs.blank e) n, refl)

  pub make-HasShape :
      (e : ElementType) (d : Bool) (n : ℕ)
      → HasShape (data_stream vs) e d (clamp_bound n) (make vs e d n)
  unfolding make element is_dated bound_size State.new_stream Secondary.new_stream
  make-HasShape e true n = record { typed = refl; stamped = refl; bounded = omega arith }
  make-HasShape e false n = record { typed = refl; stamped = refl; bounded = refl }

  pub resize-IsSound : (n : ℕ) (s : AnyStream F R D) → IsSound s → IsSound (resize vs n s)
  unfolding resize
  resize-IsSound n (plain e k s) h = (set_bound_size-IsValid (vs.blank e) n h.0, h.1)
  resize-IsSound n (dated e k s) h =
      (set_bound_size-IsPaired (vs.blank e) vs.blank_stamp n h.0, h.1)

  pub resize-HasShape :
      (n : ℕ) (s : AnyStream F R D)
      → HasShape (data_stream vs) (element s) (is_dated s) (clamp_bound n) (resize vs n s)
  unfolding resize element is_dated bound_size State.set_bound_size Secondary.set_bound_size
  resize-HasShape n (plain e k s) = record { typed = refl; stamped = refl; bounded = refl }
  resize-HasShape n (dated e k s) = record { typed = refl; stamped = refl; bounded = omega arith }

  -- From a clear count, the overloads leave it clear.
  resolve-clear :
      (e : ElementType) (v : Argument F R G) (k : ℕ)
      → k ≡ 0
      → (p : Pushed (Element F R e)) × (resolve vs e v k ≡ (p, 0))
  unfolding resolve
  resolve-clear e (typed v) k h = (
    outcome (accepted vs.conversions e v),
    ap (λ n. Push.dispatch vs.conversions Push.max_calls e v n) h
        ∙ dispatch-accepted vs.conversions e v,
  )
  resolve-clear e (generic_value g) k h = (delivered (vs.from_generic e g), refl)

  deliver_ind :
      {A S : Type 0} (Q : AnyStream F R D → Type 0) (push_into : A → S → S)
      (wrap : ℕ → S → AnyStream F R D) (s : S) (p : Pushed A) (k : ℕ)
      → ((x : A) → Q (wrap k (push_into x s)))
      → Q (wrap k s)
      → Q (deliver vs push_into wrap s (p, k)).1
  unfolding deliver
  deliver_ind Q push_into wrap s (delivered x) k f q = f x
  deliver_ind Q push_into wrap s Push.type_error k f q = q
  deliver_ind Q push_into wrap s still_calling k f q = q

  pub push-IsSound :
      (got : Bool) (v : Argument F R G) (d : D) (s : AnyStream F R D)
      → IsSound s
      → IsSound (push vs got v d s).1
  unfolding push
  push-IsSound got v d (plain e k s) h =
      let (p, q) = resolve-clear e v k h.1 in
      subst (λ r. IsSound (deliver vs (State.push got) (plain e) s r).1) (sym q)
        (deliver_ind IsSound (State.push got) (plain e) s p 0 (λ x. (push-IsValid got x h.0, refl))
          (h.0, refl))
  push-IsSound got v d (dated e k s) h =
      let (p, q) = resolve-clear e v k h.1 in
      subst (λ r. IsSound (deliver vs (λ x. Secondary.push got x d) (dated e) s r).1) (sym q)
        (deliver_ind IsSound (λ x. Secondary.push got x d) (dated e) s p 0
          (λ x. (push-IsPaired got x d h.0, refl)) (h.0, refl))

  pub push-HasShape :
      (got : Bool) (v : Argument F R G) (d : D) (s : AnyStream F R D)
      → HasShape (data_stream vs) (element s) (is_dated s) (bound_size s) (push vs got v d s).1
  unfolding push element is_dated bound_size State.push Secondary.push
  push-HasShape got v d (plain e k s) =
      let (p, n) = resolve vs e v k in
      deliver_ind (HasShape (data_stream vs) e false s.qbound) (State.push got) (plain e) s p n
        (λ x. record { typed = refl; stamped = refl; bounded = refl })
        (record { typed = refl; stamped = refl; bounded = refl })
  push-HasShape got v d (dated e k s) =
      let (p, n) = resolve vs e v k in
      deliver_ind (HasShape (data_stream vs) e true s.base.qbound) (λ x. Secondary.push got x d)
        (dated e) s p n (λ x. record { typed = refl; stamped = refl; bounded = refl })
        (record { typed = refl; stamped = refl; bounded = refl })

  head-Names : {A : Type 0} {s : Stream A} → IsValid s → Names s.qbound (pos 0) 0
  head-Names v = (omega (arith, v), inl refl)

  head-ok :
      {A : Type 0} (g : GenericType A G) {s : Stream A}
      → IsValid s
      → (x : G) × (get_leave_marker g (pos 0) s ≡ ok x)
  head-ok g v =
      let (a, e, h) = get-Names g v (pos 0) 0 (head-Names v) in
      (g.of_value a, get_leave_marker-get g v (pos 0) ∙ ap (λ p. p.0) h)

  pub leave_marker-ok :
      (s : AnyStream F R D) → IsSound s → (x : G) × (leave_marker vs (pos 0) s ≡ ok x)
  unfolding leave_marker
  leave_marker-ok (plain e k s) h = head-ok (vs.generic e) h.0
  leave_marker-ok (dated e k s) h = head-ok (vs.generic e) h.0.valid

  pub both_leave-ok :
      (s : AnyStream F R D) → IsSound s → (x : G × D) × (both_leave vs (pos 0) s ≡ ok x)
  unfolding both_leave Read.both_leave_marker
  both_leave-ok (plain e k s) h =
      let (x, q) = head-ok (vs.generic e) h.0 in ((x, vs.blank_stamp), ground (arith, q))
  both_leave-ok (dated e k s) h =
      let (a, d, _, _, q) = both-Names (vs.generic e) h.0 (pos 0) 0 (head-Names h.0.valid) in
      (((vs.generic e).of_value a, d), q)

  -- The streams that a block makes keep all that a block relies on.
  unfoldable pub data_stream_laws : StreamLaws (data_stream vs)
  data_stream_laws = record {
    Sound = IsSound;
    make-Sound = make-IsSound;
    make-HasShape = make-HasShape;
    resize-Sound = resize-IsSound;
    resize-HasShape = resize-HasShape;
    push-Sound = push-IsSound;
    push-HasShape = push-HasShape;
    get_leave_marker-ok = leave_marker-ok;
    both_leave_marker-ok = both_leave-ok;
  }
