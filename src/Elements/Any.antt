-- ===== src/Elements/Any.antt =====
-- The streams that `_insert_topic` makes, as objects of the interface class: `push` with its
-- overloads, and the virtual methods of either class.
use tosdata_bridge.Prelude.{ℕ, Bool, true, false, if◌then◌else◌}
use tosdata_bridge.Prelude.Int.{ℤ}
use tosdata_bridge.Prelude.Action.{Result, ok, err}
use tosdata_bridge.Stream.State
use tosdata_bridge.Stream.State.{Stream, StreamError, type_error}
use tosdata_bridge.Stream.Read
use tosdata_bridge.Stream.Read.{GenericType, get_leave_marker}
use tosdata_bridge.Stream.Secondary
use tosdata_bridge.Stream.Secondary.{PairStream}
use tosdata_bridge.Block.Interface.{StreamClass}
use tosdata_bridge.Topics.Enum.{ElementType}
use tosdata_bridge.Elements.Push
use tosdata_bridge.Elements.Push.{
  Value, Conversions, Element, Pushed, delivered, still_calling, dispatch, max_calls,
}

-- What the element types bring: value-initialised elements and stamps, and for each type what the
-- streams use of the generic type, and the cast from it.
pub record Values (F R G D : Type 0) : Type 0 where
  pub conversions : Conversions F R
  pub blank : (e : ElementType) → Element F R e
  pub blank_stamp : D
  pub generic : (e : ElementType) → GenericType (Element F R e) G
  pub from_generic : (e : ElementType) → G → Element F R e

-- A stream of either class, with the `_str_push_count` of the interface class.
pub data AnyStream (F R D : Type 0) : Type 0 where
  plain : (e : ElementType) → ℕ → Stream (Element F R e) → AnyStream F R D
  dated : (e : ElementType) → ℕ → PairStream (Element F R e) D → AnyStream F R D

-- An argument of `push`: of a type of its own, or generic.
pub data Argument (F R G : Type 0) : Type 0 where
  typed : Value F R → Argument F R G
  generic_value : G → Argument F R G

module _ {F R G D : Type 0} (vs : Values F R G D) where
  unfoldable pub make : ElementType → Bool → ℕ → AnyStream F R D
  unfolding State.new_stream Secondary.new_stream
  make e datetime sz =
      if datetime
      then dated e 0 (Secondary.new_stream (vs.blank e) vs.blank_stamp sz)
      else plain e 0 (State.new_stream (vs.blank e) sz)

  unfoldable pub resize : ℕ → AnyStream F R D → AnyStream F R D
  unfolding State.set_bound_size Secondary.set_bound_size
  resize n (plain e k s) = plain e k (State.set_bound_size (vs.blank e) n s).1
  resize n (dated e k s) = dated e k (Secondary.set_bound_size (vs.blank e) vs.blank_stamp n s).1

  -- The overload that takes the argument, and the count after the calls.
  unfoldable pub resolve : (e : ElementType) → Argument F R G → ℕ → Pushed (Element F R e) × ℕ
  unfolding dispatch
  resolve e (typed v) k = dispatch vs.conversions max_calls e v k
  resolve e (generic_value g) k = (delivered (vs.from_generic e g), 0)

  -- What a stream does with an element, if an overload delivers one.
  unfoldable pub deliver :
      {A S : Type 0}
      → (A → S → S)
      → (ℕ → S → AnyStream F R D)
      → S
      → Pushed A × ℕ
      → Result StreamError (Unit {0}) × AnyStream F R D
  deliver push_into wrap s (delivered x, k) = (ok tt, wrap k (push_into x s))
  deliver push_into wrap s (Push.type_error, k) = (err type_error, wrap k s)
  deliver push_into wrap s (still_calling, k) = (err type_error, wrap k s)

  unfoldable pub push :
      Bool → Argument F R G → D → AnyStream F R D → Result StreamError (Unit {0}) × AnyStream F R D
  unfolding deliver resolve State.push Secondary.push
  push got v d (plain e k s) = deliver (State.push got) (plain e) s (resolve e v k)
  push got v d (dated e k s) = deliver (λ x. Secondary.push got x d) (dated e) s (resolve e v k)

  unfoldable pub leave_marker : ℤ → AnyStream F R D → Result StreamError G
  unfolding get_leave_marker
  leave_marker i (plain e k s) = get_leave_marker (vs.generic e) i s
  leave_marker i (dated e k s) = get_leave_marker (vs.generic e) i s.base

  unfoldable pub both_leave : ℤ → AnyStream F R D → Result StreamError (G × D)
  unfolding Read.both_leave_marker Secondary.both_leave_marker
  both_leave i (plain e k s) = Read.both_leave_marker (vs.generic e) vs.blank_stamp i s
  both_leave i (dated e k s) = Secondary.both_leave_marker (vs.generic e) i s

module _ {F R D : Type 0} where
  unfoldable pub element : AnyStream F R D → ElementType
  element (plain e k s) = e
  element (dated e k s) = e

  unfoldable pub is_dated : AnyStream F R D → Bool
  is_dated (plain e k s) = false
  is_dated (dated e k s) = true

  unfoldable pub bound_size : AnyStream F R D → ℕ
  bound_size (plain e k s) = s.qbound
  bound_size (dated e k s) = s.base.qbound

-- `DataStreamInterface`, as a block uses it.
abbrev pub data_stream :
    {F R G D : Type 0}
    → Values F R G D
    → StreamClass ElementType (Argument F R G) G D (AnyStream F R D)
data_stream vs = record {
  make = make vs;
  resize = resize vs;
  push = push vs;
  get_leave_marker = leave_marker vs;
  both_leave_marker = both_leave vs;
  element = element;
  dated = is_dated;
  bound = bound_size;
}
