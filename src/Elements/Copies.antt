-- ===== src/Elements/Copies.antt =====
-- include/data_stream.hpp and src/data_stream.tpp: the reads of the streams as objects of the interface
-- class, with the overloads of the copies. The interface class reads a type that the stream does not
-- have by way of the next narrower one, and throws at the last.
use tosdata_bridge.Prelude.{ℕ, List, [], map}
use tosdata_bridge.Prelude.Int.{ℤ}
use tosdata_bridge.Prelude.Action.{Result, Action, pure, throw, throw_if, ◌>>=◌, ◌>>◌}
use tosdata_bridge.Topics.Enum.{
  ElementType, string_type, long_type, double_type, long_long_type, float_type,
}
use tosdata_bridge.Stream.State.{StreamError, type_error, invalid_argument}
use tosdata_bridge.Stream.Read
use tosdata_bridge.Stream.Read.{Dest, buffer, is_null, GenericType}
use tosdata_bridge.Stream.Marker
use tosdata_bridge.Stream.Marker.{copy_from_marker_by, ncopy_from_marker_by}
use tosdata_bridge.Stream.Secondary
use tosdata_bridge.Stream.Secondary.{PairStream}
use tosdata_bridge.Elements.Push.{Element, Conversions}
use tosdata_bridge.Elements.Any.{Values, AnyStream, plain, dated}

-- `STR_DATA_SZ`
abbrev pub str_data_sz : ℕ
str_data_sz = 40

module _ {S : Type 0} where
  -- `_copy`, `_copy_using_atomic_marker` and `_ncopy_using_atomic_marker`, over the copy into an
  -- array of the narrower type, which is not null. Behind the elements that were copied they write
  -- what was in that array, of which nothing is said.
  unfoldable pub copy_as :
      {N A B D : Type 0}
      → (A → B)
      → Action S StreamError (N × (List A × List D))
      → Dest
      → Action S StreamError (N × (List B × List D))
  copy_as cast own dest = do
    throw_if (is_null dest) invalid_argument
    out ← own
    pure (out.0, (map cast out.1.0, out.1.1))

  -- A chain of overloads that does not end at the type of the stream.
  unfoldable pub no_copy : {A : Type 0} → Dest → Action S StreamError A
  no_copy dest = do throw_if (is_null dest) invalid_argument; throw type_error

module _ {F R : Type 0} (cv : Conversions F R) {N D S : Type 0} where
  -- The overload for an array of a type `t` in a stream of a type `e`: `own` is that of the stream
  -- itself, and `texts` that into an array of `char*`, of `STR_DATA_SZ` characters each.
  unfoldable pub overload :
      (t e : ElementType)
      → (Dest → Action S StreamError (N × (List (Element F R e) × List D)))
      → Action S StreamError (N × (List (List ℕ) × List D))
      → Dest
      → Action S StreamError (N × (List (Element F R t) × List D))
  unfolding copy_as no_copy
  overload string_type string_type own texts dest = own dest
  overload long_type long_type own texts dest = own dest
  overload double_type double_type own texts dest = own dest
  overload long_long_type long_long_type own texts dest = own dest
  overload float_type float_type own texts dest = own dest
  overload string_type _ own texts dest = copy_as (λ s. s) texts dest
  overload double_type float_type own texts dest = copy_as cv.widen (own buffer) dest
  overload long_long_type long_type own texts dest = copy_as (λ z. z) (own buffer) dest
  overload float_type _ own texts dest = throw type_error
  overload _ _ own texts dest = no_copy dest

-- The plain class has no stamps to write.
abbrev pub unstamped :
    {N A D S : Type 0} → Action S StreamError (N × A) → Action S StreamError (N × (A × List D))
unstamped m = do out ← m; pure (out.0, (out.1, []))

-- A method of either class, as one of the interface class.
abbrev pub as_any :
    {F R D A S : Type 0}
    → (S → AnyStream F R D)
    → Action S StreamError A
    → S
    → Result StreamError A × AnyStream F R D
as_any make_any m s = let (r, t) = m s in (r, make_any t)

module _ {A G D : Type 0} (g : GenericType A G) where
  -- The inherited `copy_from_marker` and `ncopy_from_marker` call the `copy` with stamps.
  unfoldable pub stamped_strings_from_marker :
      Dest → Dest → ℕ → ℕ → ℤ → Action (PairStream A D) StreamError (ℤ × (List (List ℕ) × List D))
  unfolding copy_from_marker_by Secondary.copy_strings
  stamped_strings_from_marker dest sec dest_sz str_sz =
      copy_from_marker_by (λ s. s.base) ([], []) (λ n. Secondary.copy_strings g dest sec n str_sz)
        dest_sz

  unfoldable pub stamped_n_strings_from_marker :
      Dest → Dest → ℕ → ℕ → Action (PairStream A D) StreamError (ℤ × (List (List ℕ) × List D))
  unfolding ncopy_from_marker_by Secondary.copy_strings
  stamped_n_strings_from_marker dest sec dest_sz str_sz =
      ncopy_from_marker_by (λ s. s.base) ([], []) (λ n. Secondary.copy_strings g dest sec n str_sz)
        dest_sz

module _ {F R G D : Type 0} (vs : Values F R G D) where
  -- The copies into an array of strings, of a size `str_sz` each.
  unfoldable pub strings_copy :
      ℕ
      → Dest
      → Dest
      → ℕ
      → ℤ
      → ℤ
      → Action (AnyStream F R D) StreamError (ℕ × (List (List ℕ) × List D))
  unfolding Read.copy_strings Secondary.copy_strings
  strings_copy str_sz dest sec sz end beg (plain e k s) =
      as_any (plain e k) (unstamped (Read.copy_strings (vs.generic e) dest sz str_sz end beg)) s
  strings_copy str_sz dest sec sz end beg (dated e k s) =
      as_any (dated e k) (Secondary.copy_strings (vs.generic e) dest sec sz str_sz end beg) s

  unfoldable pub strings_from_marker :
      ℕ → Dest → Dest → ℕ → ℤ → Action (AnyStream F R D) StreamError (ℤ × (List (List ℕ) × List D))
  unfolding Marker.copy_strings_from_marker stamped_strings_from_marker
  strings_from_marker str_sz dest sec sz beg (plain e k s) =
      as_any (plain e k)
        (unstamped (Marker.copy_strings_from_marker (vs.generic e) dest sz str_sz beg)) s
  strings_from_marker str_sz dest sec sz beg (dated e k s) =
      as_any (dated e k) (stamped_strings_from_marker (vs.generic e) dest sec sz str_sz beg) s

  unfoldable pub n_strings_from_marker :
      ℕ → Dest → Dest → ℕ → Action (AnyStream F R D) StreamError (ℤ × (List (List ℕ) × List D))
  unfolding Marker.ncopy_strings_from_marker stamped_n_strings_from_marker
  n_strings_from_marker str_sz dest sec sz (plain e k s) =
      as_any (plain e k)
        (unstamped (Marker.ncopy_strings_from_marker (vs.generic e) dest sz str_sz)) s
  n_strings_from_marker str_sz dest sec sz (dated e k s) =
      as_any (dated e k) (stamped_n_strings_from_marker (vs.generic e) dest sec sz str_sz) s
