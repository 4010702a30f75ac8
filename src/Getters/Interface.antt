-- ===== src/Getters/Interface.antt =====
-- include/data_stream.hpp: the reads of the interface class `DataStreamInterface`, as the client calls
-- them. They are `const`, and move the marker all the same.
use tosdata_bridge.Prelude.{ℕ, ◌≡◌, Bool, List}
use tosdata_bridge.Prelude.Int.{ℤ}
use tosdata_bridge.Prelude.Action.{Action}
use tosdata_bridge.Stream.State.{StreamError}
use tosdata_bridge.Stream.Read.{Dest}
use tosdata_bridge.Block.Interface.{StreamClass, StreamLaws}

-- The copies into an array of `X`: what is written to it, and to the array of stamps, stands behind
-- the count that is returned.
pub record Copies (X D S : Type 0) : Type 0 where
  pub copy : Dest → Dest → ℕ → ℤ → ℤ → Action S StreamError (ℕ × (List X × List D))
  pub copy_from_marker : Dest → Dest → ℕ → ℤ → Action S StreamError (ℤ × (List X × List D))
  pub ncopy_from_marker : Dest → Dest → ℕ → Action S StreamError (ℤ × (List X × List D))

-- `strings` takes the size of each string.
pub record ReadClass (G D S : Type 0) : Type 0 where
  pub size : S → ℕ
  pub bound_size : S → ℕ
  pub marker_position : S → ℤ
  pub is_marker_dirty : S → Bool
  pub get : ℤ → Action S StreamError G
  pub both : ℤ → Action S StreamError (G × D)
  pub vector : ℤ → ℤ → Action S StreamError (List G)
  pub secondary_vector : ℤ → ℤ → Action S StreamError (List D)
  pub strings : ℕ → Copies (List ℕ) D S

module _ {E V G D S : Type 0} {c : StreamClass E V G D S} (laws : StreamLaws c) where
  -- What a read may do to a stream: all but the marker is as it was.
  pub record Same (s t : S) : Type 0 where
    pub kept : laws.Sound s → laws.Sound t
    pub element_kept : c.element t ≡ c.element s
    pub dated_kept : c.dated t ≡ c.dated s
    pub bound_kept : c.bound t ≡ c.bound s
    pub values_kept : (i : ℤ) → c.get_leave_marker i t ≡ c.get_leave_marker i s
    pub stamps_kept : (i : ℤ) → c.both_leave_marker i t ≡ c.both_leave_marker i s

  abbrev pub IsRead : {A : Type 0} → Action S StreamError A → Type 0
  IsRead m = (s : S) → laws.Sound s → Same s (m s).1

  pub record CopyLaws {X : Type 0} (k : Copies X D S) : Type 0 where
    pub copies : (dest sec : Dest) (sz : ℕ) (end beg : ℤ) → IsRead (k.copy dest sec sz end beg)
    pub marked : (dest sec : Dest) (sz : ℕ) (beg : ℤ) → IsRead (k.copy_from_marker dest sec sz beg)
    pub counted : (dest sec : Dest) (sz : ℕ) → IsRead (k.ncopy_from_marker dest sec sz)

  pub record ReadLaws (r : ReadClass G D S) : Type 0 where
    pub gets : (i : ℤ) → IsRead (r.get i)
    pub gets_both : (i : ℤ) → IsRead (r.both i)
    pub vectors : (end beg : ℤ) → IsRead (r.vector end beg)
    pub secondary_vectors : (end beg : ℤ) → IsRead (r.secondary_vector end beg)
    pub in_strings : (str_sz : ℕ) → CopyLaws (r.strings str_sz)
