-- ===== src/Generic/Tests.antt =====
-- Generic values of numbers and texts, and the theorems on them. A `double` has hundredths here, of which
-- its text shows the whole part.
use tosdata_bridge.Prelude.{
  ℕ, ◌*◌, ◌/◌, ◌≡◌, refl, ◌⊎◌, Bool, true, false, ◌&&◌, none, List, [], ◌∷◌, arith, ◌==◌,
}
use tosdata_bridge.Prelude.Int.{pos, pos_part}
use tosdata_bridge.Prelude.Dict.{Eq}
use tosdata_bridge.Topics.Enum.{float_type}
use tosdata_bridge.Elements.Push.{Conversions}
use tosdata_bridge.Generic.State.{
  Casts, Generic, void, double_generic, string_generic, cast, terminates, type_val, type_val_code,
  of_value, as_string, as_element, as_long, val_switch, equals, copy_assign,
}
use tosdata_bridge.Generic.Laws.{as_element-of_value, copy_assign-as_string}

abbrev hundredths : Conversions ℕ ℕ
hundredths = record {
  widen = λ x. x * 100;
  real_text = λ r. r / 100 ∷ [];
  unsigned_text = λ n. n ∷ [];
  signed_text = λ z. pos_part z ∷ [];
}

abbrev casts : Casts ℕ ℕ
casts = record {
  narrow = λ r. r / 100;
  real_of = λ z. pos_part z * 100;
  float_of = pos_part;
  long_of = λ r. pos (r / 100);
  long_long_of = λ r. pos (r / 100);
  stol = λ s. none;
  stoll = λ s. none;
  stod = λ s. none;
  stof = λ s. none;
}

as_element-of_value_example :
    as_element hundredths casts float_type (of_value hundredths casts float_type 7) ≡ cast 7
as_element-of_value_example =
    as_element-of_value hundredths casts (λ x. omega arith) float_type 7 tt

abbrev same : List ℕ → List ℕ → Bool
same [] [] = true
same (x ∷ xs) (y ∷ ys) = x == y && same xs ys
same _ _ = false

same_left : (xs ys : List ℕ) → same xs ys ≡ true → xs ≡ ys
same_left [] [] h = refl
same_left [] (y ∷ ys) h = cc
same_left (x ∷ xs) [] h = cc
same_left (x ∷ xs) (y ∷ ys) h = ground (arith, same_left xs ys)

same_refl : (xs : List ℕ) → same xs xs ≡ true
same_refl [] = refl
same_refl (x ∷ xs) = ground (arith, same_refl xs)

instance abbrev texts : Eq (List ℕ)
texts = record { beq = same; beq_iff = λ xs ys. (same_left xs ys, λ e. rw e (same_refl ys)) }

abbrev no_text : Generic ℕ
no_text = string_generic []

abbrev one_half : Generic ℕ
one_half = double_generic 150

copy_assign-as_string_example :
    (type_val_code (type_val (copy_assign hundredths casts no_text one_half)) ≡ 4)
    × (as_string hundredths casts (copy_assign hundredths casts no_text one_half)
        ≡ as_string hundredths casts one_half)
    × ((no_text ≡ one_half) ⊎ (equals hundredths casts no_text one_half ≡ false)
        → copy_assign hundredths casts no_text one_half ≡ one_half)
copy_assign-as_string_example = copy_assign-as_string hundredths casts no_text one_half

-- Of two values with one text, the assignment keeps the old one.
kept_old :
    copy_assign hundredths casts (double_generic 101) (double_generic 102) ≡ double_generic 101
unfolding copy_assign equals as_string
kept_old = refl

-- The conversion of a value that was moved away ends the process.
moved_away : as_long hundredths casts void ≡ terminates
unfolding as_long val_switch
moved_away = refl
