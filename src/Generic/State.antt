-- ===== src/Generic/State.antt =====
-- include/generic.hpp and src/generic.cpp: `TOSDB_Generic`, a value of one of five types, or of none after
-- a move. The eight bytes that it holds, with the type beside them, are a data type; a string is held
-- through a pointer that the object owns. `long` has 32 bits, and `F` and `R` are `float` and `double`.
use tosdata_bridge.Prelude.{
  ℕ, Bool, ◌&&◌, ◌||◌, not, Option, none, some, List, [], length, take, ◌==◌, if◌then◌else◌,
}
use tosdata_bridge.Prelude.Int.{ℤ, to_int}
use tosdata_bridge.Prelude.Dict.{Eq}
use tosdata_bridge.Topics.Enum.{
  ElementType, string_type, long_type, double_type, long_long_type, float_type,
}
use tosdata_bridge.Stream.Read.{GenericType}
use tosdata_bridge.Elements.Push.{Element, Conversions}

-- The casts of the language between its numbers, and `std::stol`, `std::stoll`, `std::stod` and
-- `std::stof`, where `none` is that they throw.
pub record Casts (F R : Type 0) : Type 0 where
  pub narrow : R → F
  pub real_of : ℤ → R
  pub float_of : ℤ → F
  pub long_of : R → ℤ
  pub long_long_of : R → ℤ
  pub stol : List ℕ → Option ℤ
  pub stoll : List ℕ → Option ℤ
  pub stod : List ℕ → Option R
  pub stof : List ℕ → Option F

-- The type of a value.
pub data TypeVal : Type 0 where
  tyval_void tyval_long tyval_long_long tyval_float tyval_double tyval_string : TypeVal

pub data Generic (R : Type 0) : Type 0 where
  void : Generic R
  long_generic : ℤ → Generic R
  long_long_generic : ℤ → Generic R
  float_generic : R → Generic R
  double_generic : R → Generic R
  string_generic : List ℕ → Generic R

-- `STR_MAX`
abbrev pub str_max : ℕ
str_max = 254

-- What a cast comes to: `throw;` with nothing that is handled calls `std::terminate`.
pub data Cast (A : Type 0) : Type 0 where
  cast : A → Cast A
  bad_cast : Cast A
  terminates : Cast A

abbrev pub type_val : {R : Type 0} → Generic R → TypeVal
type_val void = tyval_void
type_val (long_generic z) = tyval_long
type_val (long_long_generic z) = tyval_long_long
type_val (float_generic r) = tyval_float
type_val (double_generic r) = tyval_double
type_val (string_generic s) = tyval_string

abbrev pub type_val_code : TypeVal → ℕ
type_val_code tyval_void = 0
type_val_code tyval_long = 1
type_val_code tyval_long_long = 2
type_val_code tyval_float = 3
type_val_code tyval_double = 4
type_val_code tyval_string = 5

-- `is_float`, `is_double`, `is_long`, `is_long_long`, `is_string`, `is_floating_point` and `is_integer`
module _ {R : Type 0} where
  abbrev pub has_type : TypeVal → Generic R → Bool
  has_type t g = type_val_code (type_val g) == type_val_code t

  unfoldable pub is_float : Generic R → Bool
  is_float = has_type tyval_float

  unfoldable pub is_double : Generic R → Bool
  is_double = has_type tyval_double

  unfoldable pub is_long : Generic R → Bool
  is_long = has_type tyval_long

  unfoldable pub is_long_long : Generic R → Bool
  is_long_long = has_type tyval_long_long

  unfoldable pub is_string : Generic R → Bool
  is_string = has_type tyval_string

  unfoldable pub is_floating_point : Generic R → Bool
  is_floating_point g = has_type tyval_float g || has_type tyval_double g

  unfoldable pub is_integer : Generic R → Bool
  is_integer g = has_type tyval_long g || has_type tyval_long_long g

  -- `size`
  unfoldable pub size : Generic R → ℕ
  size void = 0
  size (long_generic z) = 4
  size (long_long_generic z) = 8
  size (float_generic r) = 4
  size (double_generic r) = 8
  size (string_generic s) = length s

  -- The copy constructor, and the move constructor with what it leaves of its argument.
  unfoldable pub copy_generic : Generic R → Generic R
  copy_generic g = g

  unfoldable pub move_generic : Generic R → Generic R × Generic R
  move_generic g = (g, void)

  -- The move assignment, from another object and from the object itself.
  unfoldable pub move_assign : Generic R → Generic R → Generic R × Generic R
  move_assign this g = (g, void)

  unfoldable pub move_assign_self : Generic R → Generic R
  move_assign_self this = void

-- What a conversion from a string comes to.
abbrev pub converted : {A : Type 0} → Option A → Cast A
converted none = bad_cast
converted (some a) = cast a

module _ {F R : Type 0} (cv : Conversions F R) (cs : Casts F R) where
  -- The constructors.
  unfoldable pub of_value : (e : ElementType) → Element F R e → Generic R
  of_value string_type s = string_generic (take str_max s)
  of_value long_type z = long_generic z
  of_value double_type r = double_generic r
  of_value long_long_type z = long_long_generic z
  of_value float_type x = float_generic (cv.widen x)

  -- `as_string`
  unfoldable pub as_string : Generic R → List ℕ
  as_string void = []
  as_string (long_generic z) = cv.signed_text z
  as_string (long_long_generic z) = cv.signed_text z
  as_string (float_generic r) = cv.real_text r
  as_string (double_generic r) = cv.real_text r
  as_string (string_generic s) = s

  -- `_val_switch`, over the cast from each type to `T`.
  unfoldable pub val_switch :
      {T : Type 0} → (ℤ → T) → (R → T) → (List ℕ → Option T) → Generic R → Cast T
  val_switch from_int from_real from_text void = terminates
  val_switch from_int from_real from_text (long_generic z) = cast (from_int z)
  val_switch from_int from_real from_text (long_long_generic z) = cast (from_int z)
  val_switch from_int from_real from_text (float_generic r) = cast (from_real r)
  val_switch from_int from_real from_text (double_generic r) = cast (from_real r)
  val_switch from_int from_real from_text (string_generic s) = converted (from_text s)

  -- `as_long`, `as_long_long`, `as_float` and `as_double`, and the conversions of the same types
  unfoldable pub as_long : Generic R → Cast ℤ
  unfolding val_switch
  as_long = val_switch to_int cs.long_of cs.stol

  unfoldable pub as_long_long : Generic R → Cast ℤ
  unfolding val_switch
  as_long_long = val_switch (λ z. z) cs.long_long_of cs.stoll

  unfoldable pub as_float : Generic R → Cast F
  unfolding val_switch
  as_float = val_switch cs.float_of cs.narrow cs.stof

  unfoldable pub as_double : Generic R → Cast R
  unfolding val_switch
  as_double = val_switch cs.real_of (λ r. r) cs.stod

  -- The conversion to a type of elements.
  unfoldable pub as_element : (e : ElementType) → Generic R → Cast (Element F R e)
  unfolding as_string as_long as_double as_long_long as_float
  as_element string_type g = cast (as_string g)
  as_element long_type g = as_long g
  as_element double_type g = as_double g
  as_element long_long_type g = as_long_long g
  as_element float_type g = as_float g

  -- What the streams use of it.
  abbrev pub generic_type : (e : ElementType) → GenericType (Element F R e) (Generic R)
  generic_type e = record { of_value = of_value e; as_string = as_string }

  module _ ⦃texts : Eq (List ℕ)⦄ where
    -- `operator==` and `operator!=`
    unfoldable pub equals : Generic R → Generic R → Bool
    unfolding as_string
    equals this g =
        type_val_code (type_val this) == type_val_code (type_val g)
        && texts.beq (as_string this) (as_string g)

    unfoldable pub differs : Generic R → Generic R → Bool
    unfolding equals
    differs this g = not (equals this g)

    -- The assignment, which does nothing where the two are equal.
    unfoldable pub copy_assign : Generic R → Generic R → Generic R
    unfolding equals
    copy_assign this g = if equals this g then this else g
