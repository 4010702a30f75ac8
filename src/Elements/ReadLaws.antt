-- ===== src/Elements/ReadLaws.antt =====
-- The laws of the reads (include/data_stream.hpp and src/data_stream.tpp) that the client relies on,
-- for the streams.
use tosdata_bridge.Prelude.{ℕ}
use tosdata_bridge.Prelude.Int.{ℤ}
use tosdata_bridge.Topics.Enum.{ElementType}
use tosdata_bridge.Stream.Read
use tosdata_bridge.Stream.Read.{Dest, null, buffer, is_null, GenericType, get_leave_marker}
use tosdata_bridge.Stream.Marker
use tosdata_bridge.Stream.Secondary
use tosdata_bridge.Stream.Secondary.{PairStream, on_base}
use tosdata_bridge.Getters.Interface.{IsRead, CopyLaws, ReadLaws}
use tosdata_bridge.Elements.Any.{Values, plain, dated}
use tosdata_bridge.Elements.Same.{
  overload-kept, unstamped-Kept, both-Kept, plain-Same, as_plain, as_dated, IsSound-laws,
}
use tosdata_bridge.Elements.Laws.{data_stream_laws}
use tosdata_bridge.Elements.Copies.{
  str_data_sz, overload, unstamped, stamped_strings_from_marker, stamped_n_strings_from_marker,
  strings_copy, strings_from_marker, n_strings_from_marker,
}
use tosdata_bridge.Elements.Reads.{
  any_get, any_both, any_vector, any_secondary_vector, any_copy, any_copy_from_marker,
  any_ncopy_from_marker, any_copies, any_reads,
}
use tosdata_bridge.Elements.Moving.{
  Kept, Kept_refl, Kept_trans, KeptPair, KeptPair-refl, KeptPair-trans,
}
use tosdata_bridge.Elements.Kept.{
  copy-Kept, copy_from_marker-Kept, ncopy_from_marker-Kept, copy_strings-Kept, vector-Kept,
  get-Kept, copy_strings_from_marker-Kept, ncopy_strings_from_marker-Kept, on_base-KeptPair,
  copy-KeptPair, copy_from_marker-KeptPair, ncopy_from_marker-KeptPair, secondary_vector-KeptPair,
  copy_strings-KeptPair, stamped_strings_from_marker-KeptPair,
  stamped_n_strings_from_marker-KeptPair, both-KeptPair,
}

module _ {F R G D : Type 0} (vs : Values F R G D) where
  any_get-IsRead : (i : ℤ) → IsRead (data_stream_laws vs) (any_get vs i)
  unfolding any_get
  any_get-IsRead i (plain e k s) h =
      as_plain vs e k (Read.get (vs.generic e) i) (get-Kept (vs.generic e) i) s h
  any_get-IsRead i (dated e k s) h =
      as_dated vs e k (on_base (Read.get (vs.generic e) i))
        (on_base-KeptPair (Read.get (vs.generic e) i) (get-Kept (vs.generic e) i)) s h

  any_both-IsRead : (i : ℤ) → IsRead (data_stream_laws vs) (any_both vs i)
  unfolding any_both
  any_both-IsRead i (plain e k s) h =
      as_plain vs e k (Read.both (vs.generic e) vs.blank_stamp i)
        (both-Kept (vs.generic e) vs.blank_stamp i) s h
  any_both-IsRead i (dated e k s) h =
      as_dated vs e k (Secondary.both (vs.generic e) i) (both-KeptPair (vs.generic e) i) s h

  any_vector-IsRead : (end beg : ℤ) → IsRead (data_stream_laws vs) (any_vector vs end beg)
  unfolding any_vector
  any_vector-IsRead end beg (plain e k s) h =
      as_plain vs e k (Read.vector (vs.generic e) end beg) (vector-Kept (vs.generic e) end beg) s h
  any_vector-IsRead end beg (dated e k s) h =
      as_dated vs e k (on_base (Read.vector (vs.generic e) end beg))
        (on_base-KeptPair (Read.vector (vs.generic e) end beg) (vector-Kept (vs.generic e) end beg))
        s h

  any_secondary_vector-IsRead :
      (end beg : ℤ) → IsRead (data_stream_laws vs) (any_secondary_vector vs end beg)
  unfolding any_secondary_vector
  any_secondary_vector-IsRead end beg (plain e k s) h =
      plain-Same vs e k s s (Kept_refl s) (IsSound-laws vs (plain e k s) h)
  any_secondary_vector-IsRead end beg (dated e k s) h =
      as_dated vs e k (Secondary.secondary_vector end beg) (secondary_vector-KeptPair end beg) s h

  strings_copy-IsRead :
      (str_sz : ℕ) (dest sec : Dest) (sz : ℕ) (end beg : ℤ)
      → IsRead (data_stream_laws vs) (strings_copy vs str_sz dest sec sz end beg)
  unfolding strings_copy
  strings_copy-IsRead str_sz dest sec sz end beg (plain e k s) h =
      as_plain vs e k (unstamped (Read.copy_strings (vs.generic e) dest sz str_sz end beg))
        (unstamped-Kept D (Read.copy_strings (vs.generic e) dest sz str_sz end beg)
          (copy_strings-Kept (vs.generic e) dest sz str_sz end beg))
        s h
  strings_copy-IsRead str_sz dest sec sz end beg (dated e k s) h =
      as_dated vs e k (Secondary.copy_strings (vs.generic e) dest sec sz str_sz end beg)
        (copy_strings-KeptPair (vs.generic e) dest sec sz str_sz end beg) s h

  strings_from_marker-IsRead :
      (str_sz : ℕ) (dest sec : Dest) (sz : ℕ) (beg : ℤ)
      → IsRead (data_stream_laws vs) (strings_from_marker vs str_sz dest sec sz beg)
  unfolding strings_from_marker
  strings_from_marker-IsRead str_sz dest sec sz beg (plain e k s) h =
      as_plain vs e k
        (unstamped (Marker.copy_strings_from_marker (vs.generic e) dest sz str_sz beg))
        (unstamped-Kept D (Marker.copy_strings_from_marker (vs.generic e) dest sz str_sz beg)
          (copy_strings_from_marker-Kept (vs.generic e) dest sz str_sz beg))
        s h
  strings_from_marker-IsRead str_sz dest sec sz beg (dated e k s) h =
      as_dated vs e k (stamped_strings_from_marker (vs.generic e) dest sec sz str_sz beg)
        (stamped_strings_from_marker-KeptPair (vs.generic e) dest sec sz str_sz beg) s h

  n_strings_from_marker-IsRead :
      (str_sz : ℕ) (dest sec : Dest) (sz : ℕ)
      → IsRead (data_stream_laws vs) (n_strings_from_marker vs str_sz dest sec sz)
  unfolding n_strings_from_marker
  n_strings_from_marker-IsRead str_sz dest sec sz (plain e k s) h =
      as_plain vs e k (unstamped (Marker.ncopy_strings_from_marker (vs.generic e) dest sz str_sz))
        (unstamped-Kept D (Marker.ncopy_strings_from_marker (vs.generic e) dest sz str_sz)
          (ncopy_strings_from_marker-Kept (vs.generic e) dest sz str_sz))
        s h
  n_strings_from_marker-IsRead str_sz dest sec sz (dated e k s) h =
      as_dated vs e k (stamped_n_strings_from_marker (vs.generic e) dest sec sz str_sz)
        (stamped_n_strings_from_marker-KeptPair (vs.generic e) dest sec sz str_sz) s h

  any_copy-IsRead :
      (t : ElementType) (dest sec : Dest) (sz : ℕ) (end beg : ℤ)
      → IsRead (data_stream_laws vs) (any_copy vs t dest sec sz end beg)
  unfolding any_copy
  any_copy-IsRead t dest sec sz end beg (plain e k s) h =
      as_plain vs e k
        (overload vs.conversions t e (λ d. unstamped (Read.copy d sz end beg))
          (unstamped (Read.copy_strings (vs.generic e) buffer sz str_data_sz end beg)) dest)
        (overload-kept vs.conversions Kept Kept_refl Kept_trans t e
          (λ d. unstamped (Read.copy d sz end beg))
          (unstamped (Read.copy_strings (vs.generic e) buffer sz str_data_sz end beg)) dest
          (λ d. unstamped-Kept D (Read.copy d sz end beg) (copy-Kept d sz end beg))
          (unstamped-Kept D (Read.copy_strings (vs.generic e) buffer sz str_data_sz end beg)
            (copy_strings-Kept (vs.generic e) buffer sz str_data_sz end beg)))
        s h
  any_copy-IsRead t dest sec sz end beg (dated e k s) h =
      as_dated vs e k
        (overload vs.conversions t e (λ d. Secondary.copy d sec sz end beg)
          (Secondary.copy_strings (vs.generic e) buffer sec sz str_data_sz end beg) dest)
        (overload-kept vs.conversions KeptPair KeptPair-refl KeptPair-trans t e
          (λ d. Secondary.copy d sec sz end beg)
          (Secondary.copy_strings (vs.generic e) buffer sec sz str_data_sz end beg) dest
          (λ d. copy-KeptPair d sec sz end beg)
          (copy_strings-KeptPair (vs.generic e) buffer sec sz str_data_sz end beg))
        s h

  any_copy_from_marker-IsRead :
      (t : ElementType) (dest sec : Dest) (sz : ℕ) (beg : ℤ)
      → IsRead (data_stream_laws vs) (any_copy_from_marker vs t dest sec sz beg)
  unfolding any_copy_from_marker
  any_copy_from_marker-IsRead t dest sec sz beg (plain e k s) h =
      as_plain vs e k
        (overload vs.conversions t e (λ d. unstamped (Marker.copy_from_marker d sz beg))
          (unstamped (Marker.copy_strings_from_marker (vs.generic e) buffer sz str_data_sz beg))
          dest)
        (overload-kept vs.conversions Kept Kept_refl Kept_trans t e
          (λ d. unstamped (Marker.copy_from_marker d sz beg))
          (unstamped (Marker.copy_strings_from_marker (vs.generic e) buffer sz str_data_sz beg))
          dest
          (λ d.
            unstamped-Kept D (Marker.copy_from_marker d sz beg) (copy_from_marker-Kept d sz beg))
          (unstamped-Kept D
            (Marker.copy_strings_from_marker (vs.generic e) buffer sz str_data_sz beg)
            (copy_strings_from_marker-Kept (vs.generic e) buffer sz str_data_sz beg)))
        s h
  any_copy_from_marker-IsRead t dest sec sz beg (dated e k s) h =
      as_dated vs e k
        (overload vs.conversions t e (λ d. Secondary.copy_from_marker d sec sz beg)
          (stamped_strings_from_marker (vs.generic e) buffer sec sz str_data_sz beg) dest)
        (overload-kept vs.conversions KeptPair KeptPair-refl KeptPair-trans t e
          (λ d. Secondary.copy_from_marker d sec sz beg)
          (stamped_strings_from_marker (vs.generic e) buffer sec sz str_data_sz beg) dest
          (λ d. copy_from_marker-KeptPair d sec sz beg)
          (stamped_strings_from_marker-KeptPair (vs.generic e) buffer sec sz str_data_sz beg))
        s h

  any_ncopy_from_marker-IsRead :
      (t : ElementType) (dest sec : Dest) (sz : ℕ)
      → IsRead (data_stream_laws vs) (any_ncopy_from_marker vs t dest sec sz)
  unfolding any_ncopy_from_marker
  any_ncopy_from_marker-IsRead t dest sec sz (plain e k s) h =
      as_plain vs e k
        (overload vs.conversions t e (λ d. unstamped (Marker.ncopy_from_marker d sz))
          (unstamped (Marker.ncopy_strings_from_marker (vs.generic e) buffer sz str_data_sz)) dest)
        (overload-kept vs.conversions Kept Kept_refl Kept_trans t e
          (λ d. unstamped (Marker.ncopy_from_marker d sz))
          (unstamped (Marker.ncopy_strings_from_marker (vs.generic e) buffer sz str_data_sz)) dest
          (λ d. unstamped-Kept D (Marker.ncopy_from_marker d sz) (ncopy_from_marker-Kept d sz))
          (unstamped-Kept D (Marker.ncopy_strings_from_marker (vs.generic e) buffer sz str_data_sz)
            (ncopy_strings_from_marker-Kept (vs.generic e) buffer sz str_data_sz)))
        s h
  any_ncopy_from_marker-IsRead t dest sec sz (dated e k s) h =
      as_dated vs e k
        (overload vs.conversions t e (λ d. Secondary.ncopy_from_marker d sec sz)
          (stamped_n_strings_from_marker (vs.generic e) buffer sec sz str_data_sz) dest)
        (overload-kept vs.conversions KeptPair KeptPair-refl KeptPair-trans t e
          (λ d. Secondary.ncopy_from_marker d sec sz)
          (stamped_n_strings_from_marker (vs.generic e) buffer sec sz str_data_sz) dest
          (λ d. ncopy_from_marker-KeptPair d sec sz)
          (stamped_n_strings_from_marker-KeptPair (vs.generic e) buffer sec sz str_data_sz))
        s h

  pub any_copies_laws : (t : ElementType) → CopyLaws (data_stream_laws vs) (any_copies vs t)
  any_copies_laws t = record {
    copies = any_copy-IsRead t;
    marked = any_copy_from_marker-IsRead t;
    counted = any_ncopy_from_marker-IsRead t;
  }

  -- Each read of a stream of either class leaves it valid, with the same shape and the same values and
  -- stamps.
  pub any_reads_laws : ReadLaws (data_stream_laws vs) (any_reads vs)
  any_reads_laws = record {
    gets = any_get-IsRead;
    gets_both = any_both-IsRead;
    vectors = any_vector-IsRead;
    secondary_vectors = any_secondary_vector-IsRead;
    in_strings = λ str_sz. record {
      copies = strings_copy-IsRead str_sz;
      marked = strings_from_marker-IsRead str_sz;
      counted = n_strings_from_marker-IsRead str_sz;
    };
  }
