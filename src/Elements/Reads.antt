-- ===== src/Elements/Reads.antt =====
-- include/data_stream.hpp and src/data_stream.tpp: the copies into arrays of elements, and the streams
-- as what the client reads.
use tosdata_bridge.Prelude.{ℕ, Bool, List}
use tosdata_bridge.Prelude.Int.{ℤ}
use tosdata_bridge.Prelude.Action.{Action}
use tosdata_bridge.Topics.Enum.{ElementType}
use tosdata_bridge.Stream.State.{StreamError}
use tosdata_bridge.Stream.Read
use tosdata_bridge.Stream.Read.{Dest, buffer}
use tosdata_bridge.Stream.Marker
use tosdata_bridge.Stream.Secondary
use tosdata_bridge.Elements.Push.{Element}
use tosdata_bridge.Elements.Any.{Values, AnyStream, plain, dated, bound_size}
use tosdata_bridge.Elements.Copies.{
  str_data_sz, overload, unstamped, as_any, stamped_strings_from_marker,
  stamped_n_strings_from_marker, strings_copy, strings_from_marker, n_strings_from_marker,
}
use tosdata_bridge.Getters.Interface.{Copies, ReadClass}

module _ {F R D : Type 0} where
  -- The stream of the base class.
  unfoldable pub state_of : {A : Type 0} → (ℕ → ℤ → Bool → A) → AnyStream F R D → A
  state_of f (plain e k s) = f s.qcount s.mark_count s.mark_is_dirty
  state_of f (dated e k s) = f s.base.qcount s.base.mark_count s.base.mark_is_dirty

module _ {F R G D : Type 0} (vs : Values F R G D) where
  unfoldable pub any_get : ℤ → Action (AnyStream F R D) StreamError G
  unfolding Read.get
  any_get i (plain e k s) = as_any (plain e k) (Read.get (vs.generic e) i) s
  any_get i (dated e k s) = as_any (dated e k) (Secondary.on_base (Read.get (vs.generic e) i)) s

  unfoldable pub any_both : ℤ → Action (AnyStream F R D) StreamError (G × D)
  unfolding Read.both Secondary.both
  any_both i (plain e k s) = as_any (plain e k) (Read.both (vs.generic e) vs.blank_stamp i) s
  any_both i (dated e k s) = as_any (dated e k) (Secondary.both (vs.generic e) i) s

  unfoldable pub any_vector : ℤ → ℤ → Action (AnyStream F R D) StreamError (List G)
  unfolding Read.vector
  any_vector end beg (plain e k s) = as_any (plain e k) (Read.vector (vs.generic e) end beg) s
  any_vector end beg (dated e k s) =
      as_any (dated e k) (Secondary.on_base (Read.vector (vs.generic e) end beg)) s

  unfoldable pub any_secondary_vector : ℤ → ℤ → Action (AnyStream F R D) StreamError (List D)
  unfolding Read.secondary_vector Secondary.secondary_vector
  any_secondary_vector end beg (plain e k s) =
      (Read.secondary_vector vs.blank_stamp end beg s, plain e k s)
  any_secondary_vector end beg (dated e k s) =
      as_any (dated e k) (Secondary.secondary_vector end beg) s

  module _ (t : ElementType) where
    unfoldable pub any_copy :
        Dest
        → Dest
        → ℕ
        → ℤ
        → ℤ
        → Action (AnyStream F R D) StreamError (ℕ × (List (Element F R t) × List D))
    unfolding overload Read.copy Secondary.copy Read.copy_strings Secondary.copy_strings
    any_copy dest sec sz end beg (plain e k s) =
        as_any (plain e k)
          (overload vs.conversions t e (λ d. unstamped (Read.copy d sz end beg))
            (unstamped (Read.copy_strings (vs.generic e) buffer sz str_data_sz end beg)) dest)
          s
    any_copy dest sec sz end beg (dated e k s) =
        as_any (dated e k)
          (overload vs.conversions t e (λ d. Secondary.copy d sec sz end beg)
            (Secondary.copy_strings (vs.generic e) buffer sec sz str_data_sz end beg) dest)
          s

    unfoldable pub any_copy_from_marker :
        Dest
        → Dest
        → ℕ
        → ℤ
        → Action (AnyStream F R D) StreamError (ℤ × (List (Element F R t) × List D))
    unfolding overload Marker.copy_from_marker Secondary.copy_from_marker
        Marker.copy_strings_from_marker stamped_strings_from_marker
    any_copy_from_marker dest sec sz beg (plain e k s) =
        as_any (plain e k)
          (overload vs.conversions t e (λ d. unstamped (Marker.copy_from_marker d sz beg))
            (unstamped (Marker.copy_strings_from_marker (vs.generic e) buffer sz str_data_sz beg))
            dest)
          s
    any_copy_from_marker dest sec sz beg (dated e k s) =
        as_any (dated e k)
          (overload vs.conversions t e (λ d. Secondary.copy_from_marker d sec sz beg)
            (stamped_strings_from_marker (vs.generic e) buffer sec sz str_data_sz beg) dest)
          s

    unfoldable pub any_ncopy_from_marker :
        Dest → Dest → ℕ → Action (AnyStream F R D) StreamError (ℤ × (List (Element F R t) × List D))
    unfolding overload Marker.ncopy_from_marker Secondary.ncopy_from_marker
        Marker.ncopy_strings_from_marker stamped_n_strings_from_marker
    any_ncopy_from_marker dest sec sz (plain e k s) =
        as_any (plain e k)
          (overload vs.conversions t e (λ d. unstamped (Marker.ncopy_from_marker d sz))
            (unstamped (Marker.ncopy_strings_from_marker (vs.generic e) buffer sz str_data_sz))
            dest)
          s
    any_ncopy_from_marker dest sec sz (dated e k s) =
        as_any (dated e k)
          (overload vs.conversions t e (λ d. Secondary.ncopy_from_marker d sec sz)
            (stamped_n_strings_from_marker (vs.generic e) buffer sec sz str_data_sz) dest)
          s

  -- The copies into an array of a type.
  abbrev pub any_copies : (t : ElementType) → Copies (Element F R t) D (AnyStream F R D)
  any_copies t = record {
    copy = any_copy t;
    copy_from_marker = any_copy_from_marker t;
    ncopy_from_marker = any_ncopy_from_marker t;
  }

  abbrev pub any_strings : ℕ → Copies (List ℕ) D (AnyStream F R D)
  any_strings str_sz = record {
    copy = strings_copy vs str_sz;
    copy_from_marker = strings_from_marker vs str_sz;
    ncopy_from_marker = n_strings_from_marker vs str_sz;
  }

  abbrev pub any_reads : ReadClass G D (AnyStream F R D)
  any_reads = record {
    size = state_of (λ n m d. n);
    bound_size = bound_size;
    marker_position = state_of (λ n m d. m);
    is_marker_dirty = state_of (λ n m d. d);
    get = any_get;
    both = any_both;
    vector = any_vector;
    secondary_vector = any_secondary_vector;
    strings = any_strings;
  }
