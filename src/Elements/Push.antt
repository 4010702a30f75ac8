-- ===== src/Elements/Push.antt =====
-- include/data_stream.hpp: the overloads of `push`. The interface class passes a value that the
-- stream does not take itself on to the next wider type, and at last to text.
use tosdata_bridge.Prelude.{
  ℕ, zero, suc, ◌+◌, ◌%◌, ◌^◌, Option, none, some, List, ◌==◌, if◌then◌else◌,
}
use tosdata_bridge.Prelude.Int.{ℤ}
use tosdata_bridge.Topics.Enum.{
  ElementType, string_type, long_type, double_type, long_long_type, float_type,
}

-- The integer types, from narrow to wide.
pub data Width : Type 0 where
  char_width short_width int_width long_width long_long_width : Width

abbrev pub wider : Width → Option Width
wider char_width = some short_width
wider short_width = some int_width
wider int_width = some long_width
wider long_width = some long_long_width
wider long_long_width = none

-- An argument of `push`, of the types `float` (`F`), `double` (`R`), unsigned and signed integers,
-- `std::string` and `const char*`.
pub data Value (F R : Type 0) : Type 0 where
  float_value : F → Value F R
  double_value : R → Value F R
  unsigned_value : Width → ℕ → Value F R
  signed_value : Width → ℤ → Value F R
  string_value : List ℕ → Value F R
  text_pointer : List ℕ → Value F R

-- What the overloads use of the language: the cast from `float` to `double`, which like those
-- between integers keeps the value, and `std::to_string`.
pub record Conversions (F R : Type 0) : Type 0 where
  pub widen : F → R
  pub real_text : R → List ℕ
  pub unsigned_text : ℕ → List ℕ
  pub signed_text : ℤ → List ℕ

abbrev pub Element : Type 0 → Type 0 → ElementType → Type 0
Element F R string_type = List ℕ
Element F R long_type = ℤ
Element F R double_type = R
Element F R long_long_type = ℤ
Element F R float_type = F

-- What a call of the interface class does: it calls another overload, or throws.
pub data NextCall (F R : Type 0) : Type 0 where
  calls : Value F R → NextCall F R
  throws : NextCall F R

-- The end of the calls; `still_calling` is what is said where the calls allowed are used up.
pub data Pushed (A : Type 0) : Type 0 where
  delivered : A → Pushed A
  type_error : Pushed A
  still_calling : Pushed A

-- The longest chain of overloads: five widths, and text back and forth.
abbrev pub max_calls : ℕ
max_calls = 8

module _ {F R : Type 0} where
  -- The overload of `DataStream<Ty>` itself takes a `Ty`.
  abbrev pub override : (e : ElementType) → Value F R → Option (Element F R e)
  override string_type (string_value s) = some s
  override long_type (signed_value long_width z) = some z
  override double_type (double_value r) = some r
  override long_long_type (signed_value long_long_width z) = some z
  override float_type (float_value x) = some x
  override _ _ = none

  module _ (cv : Conversions F R) where
    -- The overloads of the interface class. Text goes back and forth between its two overloads, of
    -- which the second in a row finds `_str_push_count` set, clears it and throws.
    abbrev pub base_push : Value F R → ℕ → NextCall F R × ℕ
    base_push (float_value x) count = (calls (double_value (cv.widen x)), count)
    base_push (double_value r) count = (calls (string_value (cv.real_text r)), count)
    base_push (unsigned_value w n) count = elim (wider w) [
      | some v ↦ (calls (unsigned_value v n), count)
      | none ↦ (calls (string_value (cv.unsigned_text n)), count)
    ]
    base_push (signed_value w z) count = elim (wider w) [
      | some v ↦ (calls (signed_value v z), count)
      | none ↦ (calls (string_value (cv.signed_text z)), count)
    ]
    base_push (string_value s) count =
        if count == 0 then (calls (text_pointer s), (count + 1) % 2 ^ 32) else (throws, 0)
    base_push (text_pointer s) count =
        if count == 0 then (calls (string_value s), (count + 1) % 2 ^ 32) else (throws, 0)

    -- The calls from one `push` on, at most so many; the count at the end goes with the result.
    unfoldable pub dispatch : ℕ → (e : ElementType) → Value F R → ℕ → Pushed (Element F R e) × ℕ
    dispatch zero e v count = (still_calling, count)
    dispatch (suc fuel) e v count = elim (override e v) [
      | some x ↦ (delivered x, 0)
      | none ↦
          let (next, k) = base_push v count in
          elim next [ calls w ↦ dispatch fuel e w k | throws ↦ (type_error, k) ]
    ]
