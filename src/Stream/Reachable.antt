-- ===== src/Stream/Reachable.antt =====
-- The states that a stream can reach: from its constructor, by any calls of its methods in any
-- order, which its mutex makes a sequence.
use tosdata_bridge.Prelude.{ℕ, Bool, List, [], ◌∷◌}
use tosdata_bridge.Prelude.Int.{ℤ}
use tosdata_bridge.Stream.State.{Stream, new_stream, push, set_bound_size}
use tosdata_bridge.Stream.Read.{Dest, GenericType, copy, copy_strings, get, vector}
use tosdata_bridge.Stream.Marker.{copy_from_marker, ncopy_from_marker}
use tosdata_bridge.Stream.Invariant.{
  IsValid, new_stream-IsValid, push-IsValid, set_bound_size-IsValid,
}
use tosdata_bridge.Stream.Reads.{
  Moved, Moved-IsValid, copy-Moved, copy_strings-Moved, get-Moved, vector-Moved,
  copy_from_marker-Moved, ncopy_from_marker-Moved,
}

-- The calls of a client, with their arguments.
pub data Read : Type 0 where
  copies : Dest → ℕ → ℤ → ℤ → Read
  copies_strings : Dest → ℕ → ℕ → ℤ → ℤ → Read
  gets : ℤ → Read
  vectors : ℤ → ℤ → Read
  copies_from_marker : Dest → ℕ → ℤ → Read
  ncopies_from_marker : Dest → ℕ → Read

pub data Call (A : Type 0) : Type 0 where
  reads : Read → Call A
  pushes : Bool → A → Call A
  bounds : ℕ → Call A

module _ {A G : Type 0} (g : GenericType A G) where
  -- The state after a read, also if it throws.
  unfoldable pub read : Read → Stream A → Stream A
  read (copies dest sz end beg) s = (copy dest sz end beg s).1
  read (copies_strings dest dest_sz str_sz end beg) s =
      (copy_strings g dest dest_sz str_sz end beg s).1
  read (gets i) s = (get g i s).1
  read (vectors end beg) s = (vector g end beg s).1
  read (copies_from_marker dest sz beg) s = (copy_from_marker dest sz beg s).1
  read (ncopies_from_marker dest sz) s = (ncopy_from_marker dest sz s).1

  pub read-Moved : (r : Read) {s : Stream A} → IsValid s → Moved s (read r s)
  unfolding read
  read-Moved (copies dest sz end beg) v = copy-Moved v sz dest end beg
  read-Moved (copies_strings dest dest_sz str_sz end beg) v =
      copy_strings-Moved g v dest dest_sz str_sz end beg
  read-Moved (gets i) v = get-Moved g v i
  read-Moved (vectors end beg) v = vector-Moved g v end beg
  read-Moved (copies_from_marker dest sz beg) v = copy_from_marker-Moved v sz dest beg
  read-Moved (ncopies_from_marker dest sz) v = ncopy_from_marker-Moved v sz dest

  module _ (blank : A) where
    unfoldable pub step : Call A → Stream A → Stream A
    unfolding read
    step (reads r) s = read r s
    step (pushes got x) s = push got x s
    step (bounds sz) s = (set_bound_size blank sz s).1

    unfoldable pub run : List (Call A) → Stream A → Stream A
    unfolding step
    run [] s = s
    run (c ∷ cs) s = run cs (step c s)

    step-IsValid : (c : Call A) {s : Stream A} → IsValid s → IsValid (step c s)
    unfolding step
    step-IsValid (reads r) v = Moved-IsValid v (read-Moved r v)
    step-IsValid (pushes got x) v = push-IsValid got x v
    step-IsValid (bounds sz) v = set_bound_size-IsValid blank sz v

    run-IsValid : (cs : List (Call A)) {s : Stream A} → IsValid s → IsValid (run cs s)
    unfolding run
    run-IsValid [] v = v
    run-IsValid (c ∷ cs) v = run-IsValid cs (step-IsValid c v)

    -- Every state that a stream of any size can reach satisfies the invariant.
    pub run-new_stream-IsValid :
        (sz : ℕ) (cs : List (Call A)) → IsValid (run cs (new_stream blank sz))
    run-new_stream-IsValid sz cs = run-IsValid cs (new_stream-IsValid blank sz)
