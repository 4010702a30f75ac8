-- ===== src/Generic/Laws.antt =====
-- What `TOSDB_Generic` (include/generic.hpp and src/generic.cpp) gives back of a value, and what an
-- assignment leaves.
use tosdata_bridge.Prelude.{
  ℕ, ◌≤◌, ◌≡◌, refl, ap, ◌⊎◌, false, List, length, take_all, arith, inl, inr,
}
use tosdata_bridge.Prelude.Int.{pos, negsuc, ◌≤ℤ◌, int_max, to_int_fits}
use tosdata_bridge.Prelude.Dict.{Eq}
use tosdata_bridge.Topics.Enum.{
  ElementType, string_type, long_type, double_type, long_long_type, float_type,
}
use tosdata_bridge.Elements.Push.{Element, Conversions}
use tosdata_bridge.Generic.State.{
  Casts, Generic, cast, type_val, type_val_code, str_max, of_value, as_string, as_element,
  val_switch, equals, copy_assign, as_long, as_long_long, as_float, as_double,
}

-- The values of each type that a generic value holds whole: a text of at most 254 characters, a
-- `long`, and all values of the other types.
abbrev pub Holds : (F R : Type 0) (e : ElementType) → Element F R e → Type 0
Holds F R string_type s = length s ≤ str_max
Holds F R long_type z = (z ≤ℤ pos int_max) × (negsuc int_max ≤ℤ z)
Holds F R double_type r = Unit
Holds F R long_long_type z = Unit
Holds F R float_type x = Unit

module _ {F R : Type 0} (cv : Conversions F R) (cs : Casts F R)
    (narrow-widen : (x : F) → cs.narrow (cv.widen x) ≡ x) where
  -- Let the cast from `float` to `double` and back give the value. A generic value that is made from a
  -- value of one of the five types, a text of at most 254 characters if it is a text, and converted
  -- back to that type, gives that value.
  pub as_element-of_value :
      (e : ElementType) (x : Element F R e)
      → Holds F R e x
      → as_element cv cs e (of_value cv cs e x) ≡ cast x
  unfolding as_element of_value as_string as_long as_long_long as_float as_double val_switch
  as_element-of_value string_type s h = ap cast (take_all str_max s h)
  as_element-of_value long_type z h = ap cast (to_int_fits z h.0 h.1)
  as_element-of_value double_type r h = refl
  as_element-of_value long_long_type z h = refl
  as_element-of_value float_type x h = ap cast (narrow-widen x)

module _ {F R : Type 0} (cv : Conversions F R) (cs : Casts F R) ⦃texts : Eq (List ℕ)⦄ where
  -- After an assignment the object has the type and the text of the value that is assigned, and that
  -- value itself if it had it before or did not compare equal to it.
  pub copy_assign-as_string :
      (this g : Generic R)
      → (type_val_code (type_val (copy_assign cv cs this g)) ≡ type_val_code (type_val g))
        × (as_string cv cs (copy_assign cv cs this g) ≡ as_string cv cs g)
        × ((this ≡ g) ⊎ (equals cv cs this g ≡ false) → copy_assign cv cs this g ≡ g)
  unfolding copy_assign equals
  copy_assign-as_string this g =
      let same = texts.beq_iff (as_string cv cs this) (as_string cv cs g) in
      (
        ground (arith, same),
        ground (arith, same),
        λ h. elim h [ inl e ↦ ground (arith, e) | inr e ↦ ground (arith, e) ],
      )
