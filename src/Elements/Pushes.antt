-- ===== src/Elements/Pushes.antt =====
-- `push` through the interface class, from the argument to the stream.
use tosdata_bridge.Prelude.{ℕ, ◌≡◌, refl, ap, subst, ◌∙◌, Bool, Option, none, some}
use tosdata_bridge.Prelude.Action.{Result, ok, err}
use tosdata_bridge.Stream.State
use tosdata_bridge.Stream.State.{Stream, StreamError, type_error}
use tosdata_bridge.Stream.Secondary
use tosdata_bridge.Stream.Secondary.{PairStream}
use tosdata_bridge.Topics.Enum.{
  ElementType, string_type, long_type, double_type, long_long_type, float_type,
}
use tosdata_bridge.Elements.Push.{
  Value, Element, string_value, signed_value, double_value, float_value, long_width,
  long_long_width, dispatch,
}
use tosdata_bridge.Elements.Overloads.{accepted, outcome, dispatch-accepted}
use tosdata_bridge.Elements.Any.{
  Values, AnyStream, plain, dated, typed, resolve, deliver, push, element,
}

module _ {F R G D : Type 0} (vs : Values F R G D) where
  -- The push of an element, or the type error where there is none.
  abbrev pub push_if :
      {A S : Type 0}
      → (A → S → S)
      → (S → AnyStream F R D)
      → S
      → Option A
      → Result StreamError (Unit {0}) × AnyStream F R D
  push_if push_into wrap s none = (err type_error, wrap s)
  push_if push_into wrap s (some x) = (ok tt, wrap (push_into x s))

  deliver-outcome :
      {A S : Type 0} (push_into : A → S → S) (wrap : ℕ → S → AnyStream F R D) (s : S) (o : Option A)
      → deliver vs push_into wrap s (outcome o, 0) ≡ push_if push_into (wrap 0) s o
  unfolding deliver
  deliver-outcome push_into wrap s none = refl
  deliver-outcome push_into wrap s (some x) = refl

  -- A push of any value into a stream whose count is clear pushes what the stream's type makes of
  -- the value, with the stamp if the stream has stamps; of a value that the type does not take it
  -- throws the type error and changes nothing.
  pub push-accepted :
      (got : Bool) (e : ElementType) (v : Value F R) (d : D) (s : Stream (Element F R e))
      (t : PairStream (Element F R e) D)
      → (push vs got (typed v) d (plain e 0 s)
          ≡ push_if (State.push got) (plain e 0) s (accepted vs.conversions e v))
        × (push vs got (typed v) d (dated e 0 t)
            ≡ push_if (λ x. Secondary.push got x d) (dated e 0) t (accepted vs.conversions e v))
  unfolding push resolve
  push-accepted got e v d s t = (
    ap (deliver vs (State.push got) (plain e) s) (dispatch-accepted vs.conversions e v)
        ∙ deliver-outcome (State.push got) (plain e) s (accepted vs.conversions e v),
    ap (deliver vs (λ x. Secondary.push got x d) (dated e) t) (dispatch-accepted vs.conversions e v)
        ∙ deliver-outcome (λ x. Secondary.push got x d) (dated e) t (accepted vs.conversions e v),
  )

-- A value of the type of the elements, as an argument of `push`.
abbrev pub own_value : {F R : Type 0} → (e : ElementType) → Element F R e → Value F R
own_value string_type s = string_value s
own_value long_type z = signed_value long_width z
own_value double_type r = double_value r
own_value long_long_type z = signed_value long_long_width z
own_value float_type x = float_value x

module _ {F R G D : Type 0} (vs : Values F R G D) (got : Bool) (d : D) where
  -- A stream takes every value of the type of its elements, whatever its count of string pushes is.
  push-own_value :
      (p : AnyStream F R D) (x : Element F R (element p))
      → (push vs got (typed (own_value (element p) x)) d p).0 ≡ ok tt
  unfolding push resolve deliver element dispatch
  push-own_value (plain string_type k s) x = refl
  push-own_value (plain long_type k s) x = refl
  push-own_value (plain double_type k s) x = refl
  push-own_value (plain long_long_type k s) x = refl
  push-own_value (plain float_type k s) x = refl
  push-own_value (dated string_type k s) x = refl
  push-own_value (dated long_type k s) x = refl
  push-own_value (dated double_type k s) x = refl
  push-own_value (dated long_long_type k s) x = refl
  push-own_value (dated float_type k s) x = refl

  pub push-own_type :
      (e : ElementType) (p : AnyStream F R D)
      → element p ≡ e
      → (x : Element F R e) → (push vs got (typed (own_value e x)) d p).0 ≡ ok tt
  push-own_type e p h =
      subst (λ e. (x : Element F R e) → (push vs got (typed (own_value e x)) d p).0 ≡ ok tt) h
        (push-own_value p)
