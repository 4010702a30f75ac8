-- ===== src/Elements/Overloads.antt =====
-- What a `push` of any value into a stream of any type comes to.
use tosdata_bridge.Prelude.{ℕ, ◌≡◌, refl, Option, none, some}
use tosdata_bridge.Prelude.Int.{ℤ}
use tosdata_bridge.Topics.Enum.{
  ElementType, string_type, long_type, double_type, long_long_type, float_type,
}
use tosdata_bridge.Elements.Push.{
  Width, char_width, short_width, int_width, long_width, long_long_width, Value, float_value,
  double_value, unsigned_value, signed_value, string_value, text_pointer, Conversions, Element,
  Pushed, delivered, type_error, dispatch, max_calls,
}

abbrev pub outcome : {A : Type 0} → Option A → Pushed A
outcome none = type_error
outcome (some x) = delivered x

module _ {F R : Type 0} (cv : Conversions F R) where
  -- The values that a stream of each type takes, and what they become in it: text takes all, each
  -- other type those from which a chain of widenings leads to it.
  abbrev pub accepted : (e : ElementType) → Value F R → Option (Element F R e)
  accepted string_type (float_value x) = some (cv.real_text (cv.widen x))
  accepted string_type (double_value r) = some (cv.real_text r)
  accepted string_type (unsigned_value w n) = some (cv.unsigned_text n)
  accepted string_type (signed_value w z) = some (cv.signed_text z)
  accepted string_type (string_value s) = some s
  accepted string_type (text_pointer s) = some s
  accepted long_type (signed_value long_long_width z) = none
  accepted long_type (signed_value w z) = some z
  accepted long_long_type (signed_value w z) = some z
  accepted double_type (float_value x) = some (cv.widen x)
  accepted double_type (double_value r) = some r
  accepted float_type (float_value x) = some x
  accepted _ _ = none

  unsigned-accepted :
      (e : ElementType) (w : Width) (n : ℕ)
      → dispatch cv max_calls e (unsigned_value w n) 0
        ≡ (outcome (accepted e (unsigned_value w n)), 0)
  unfolding dispatch
  unsigned-accepted string_type char_width n = refl
  unsigned-accepted string_type short_width n = refl
  unsigned-accepted string_type int_width n = refl
  unsigned-accepted string_type long_width n = refl
  unsigned-accepted string_type long_long_width n = refl
  unsigned-accepted long_type char_width n = refl
  unsigned-accepted long_type short_width n = refl
  unsigned-accepted long_type int_width n = refl
  unsigned-accepted long_type long_width n = refl
  unsigned-accepted long_type long_long_width n = refl
  unsigned-accepted double_type char_width n = refl
  unsigned-accepted double_type short_width n = refl
  unsigned-accepted double_type int_width n = refl
  unsigned-accepted double_type long_width n = refl
  unsigned-accepted double_type long_long_width n = refl
  unsigned-accepted long_long_type char_width n = refl
  unsigned-accepted long_long_type short_width n = refl
  unsigned-accepted long_long_type int_width n = refl
  unsigned-accepted long_long_type long_width n = refl
  unsigned-accepted long_long_type long_long_width n = refl
  unsigned-accepted float_type char_width n = refl
  unsigned-accepted float_type short_width n = refl
  unsigned-accepted float_type int_width n = refl
  unsigned-accepted float_type long_width n = refl
  unsigned-accepted float_type long_long_width n = refl

  signed-accepted :
      (e : ElementType) (w : Width) (z : ℤ)
      → dispatch cv max_calls e (signed_value w z) 0 ≡ (outcome (accepted e (signed_value w z)), 0)
  unfolding dispatch
  signed-accepted string_type char_width z = refl
  signed-accepted string_type short_width z = refl
  signed-accepted string_type int_width z = refl
  signed-accepted string_type long_width z = refl
  signed-accepted string_type long_long_width z = refl
  signed-accepted long_type char_width z = refl
  signed-accepted long_type short_width z = refl
  signed-accepted long_type int_width z = refl
  signed-accepted long_type long_width z = refl
  signed-accepted long_type long_long_width z = refl
  signed-accepted double_type char_width z = refl
  signed-accepted double_type short_width z = refl
  signed-accepted double_type int_width z = refl
  signed-accepted double_type long_width z = refl
  signed-accepted double_type long_long_width z = refl
  signed-accepted long_long_type char_width z = refl
  signed-accepted long_long_type short_width z = refl
  signed-accepted long_long_type int_width z = refl
  signed-accepted long_long_type long_width z = refl
  signed-accepted long_long_type long_long_width z = refl
  signed-accepted float_type char_width z = refl
  signed-accepted float_type short_width z = refl
  signed-accepted float_type int_width z = refl
  signed-accepted float_type long_width z = refl
  signed-accepted float_type long_long_width z = refl

  -- `max_calls` calls are enough for every `push` to end, in a stream of any type and with any value: the
  -- stream takes the value if its type is one to which the value can be widened, or text, and else
  -- the type error is thrown. The count is clear again at the end.
  pub dispatch-accepted :
      (e : ElementType) (v : Value F R) → dispatch cv max_calls e v 0 ≡ (outcome (accepted e v), 0)
  unfolding dispatch
  dispatch-accepted e (unsigned_value w n) = unsigned-accepted e w n
  dispatch-accepted e (signed_value w z) = signed-accepted e w z
  dispatch-accepted string_type (float_value x) = refl
  dispatch-accepted long_type (float_value x) = refl
  dispatch-accepted double_type (float_value x) = refl
  dispatch-accepted long_long_type (float_value x) = refl
  dispatch-accepted float_type (float_value x) = refl
  dispatch-accepted string_type (double_value r) = refl
  dispatch-accepted long_type (double_value r) = refl
  dispatch-accepted double_type (double_value r) = refl
  dispatch-accepted long_long_type (double_value r) = refl
  dispatch-accepted float_type (double_value r) = refl
  dispatch-accepted string_type (string_value t) = refl
  dispatch-accepted long_type (string_value t) = refl
  dispatch-accepted double_type (string_value t) = refl
  dispatch-accepted long_long_type (string_value t) = refl
  dispatch-accepted float_type (string_value t) = refl
  dispatch-accepted string_type (text_pointer t) = refl
  dispatch-accepted long_type (text_pointer t) = refl
  dispatch-accepted double_type (text_pointer t) = refl
  dispatch-accepted long_long_type (text_pointer t) = refl
  dispatch-accepted float_type (text_pointer t) = refl
