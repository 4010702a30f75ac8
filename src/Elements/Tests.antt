-- ===== src/Elements/Tests.antt =====
-- Pushes through the overloads, on small inputs.
use tosdata_bridge.Prelude.{ℕ, ◌≡◌, refl, true, false, [], ◌∷◌, length}
use tosdata_bridge.Prelude.Int.{ℤ, pos, pos_part}
use tosdata_bridge.Prelude.Action.{ok}
use tosdata_bridge.Stream.State
use tosdata_bridge.Stream.State.{Stream, type_error}
use tosdata_bridge.Stream.Secondary
use tosdata_bridge.Stream.Secondary.{PairStream}
use tosdata_bridge.Stream.Read.{GenericType}
use tosdata_bridge.Topics.Enum.{
  ElementType, string_type, long_type, double_type, long_long_type, float_type,
}
use tosdata_bridge.Elements.Push
use tosdata_bridge.Elements.Push.{
  Value, float_value, unsigned_value, signed_value, text_pointer, char_width, long_width,
  long_long_width, Conversions, Element, delivered, dispatch, max_calls,
}
use tosdata_bridge.Elements.Overloads.{dispatch-accepted}
use tosdata_bridge.Elements.Any.{Values, plain, dated, typed, push}
use tosdata_bridge.Elements.Pushes.{push-accepted}

-- Reals that are whole, texts of one character.
abbrev whole : Conversions ℕ ℕ
whole = record {
  widen = λ x. x;
  real_text = λ r. r ∷ [];
  unsigned_text = λ n. n ∷ [];
  signed_text = λ z. pos_part z ∷ [];
}

abbrev blank_element : (e : ElementType) → Element ℕ ℕ e
blank_element string_type = []
blank_element long_type = pos 0
blank_element double_type = 0
blank_element long_long_type = pos 0
blank_element float_type = 0

abbrev as_generic : (e : ElementType) → GenericType (Element ℕ ℕ e) ℕ
as_generic string_type = record { of_value = length; as_string = λ n. n ∷ [] }
as_generic long_type = record { of_value = pos_part; as_string = λ n. n ∷ [] }
as_generic double_type = record { of_value = λ r. r; as_string = λ n. n ∷ [] }
as_generic long_long_type = record { of_value = pos_part; as_string = λ n. n ∷ [] }
as_generic float_type = record { of_value = λ x. x; as_string = λ n. n ∷ [] }

abbrev of_generic : (e : ElementType) → ℕ → Element ℕ ℕ e
of_generic string_type n = n ∷ []
of_generic long_type n = pos n
of_generic double_type n = n
of_generic long_long_type n = pos n
of_generic float_type n = n

abbrev pub small_values : Values ℕ ℕ ℕ ℕ
small_values = record {
  conversions = whole;
  blank = blank_element;
  blank_stamp = 0;
  generic = as_generic;
  from_generic = of_generic;
}

-- A character reaches a stream of text after six calls.
char_to_text :
    dispatch whole 6 string_type (unsigned_value char_width 7) 0 ≡ (delivered (7 ∷ []), 0)
unfolding dispatch
char_to_text = refl

dispatch-accepted_example :
    dispatch whole max_calls double_type (text_pointer []) 0 ≡ (Push.type_error, 0)
dispatch-accepted_example = dispatch-accepted whole double_type (text_pointer [])

abbrev longs : Stream ℤ
longs = record {
  deque = pos 4 ∷ pos 0 ∷ [];
  qbound = 2;
  qcount = 1;
  mark_count = pos 0;
  mark_is_dirty = false;
  push_has_priority = true;
}

abbrev stamped_longs : PairStream ℤ ℕ
stamped_longs = record { base = longs; deque_secondary = 9 ∷ 0 ∷ [] }

push-accepted_example :
    (push small_values true (typed (signed_value char_width (pos 5))) 8 (plain long_type 0 longs)
      ≡ (ok tt, plain long_type 0 (State.push true (pos 5) longs)))
    × (push small_values true
          (typed (signed_value char_width (pos 5)))
          8
          (dated long_type 0 stamped_longs)
        ≡ (ok tt, dated long_type 0 (Secondary.push true (pos 5) 8 stamped_longs)))
push-accepted_example =
    push-accepted small_values true long_type (signed_value char_width (pos 5)) 8 longs
      stamped_longs
