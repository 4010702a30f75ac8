-- ===== src/Elements/Same.antt =====
-- The reads of the streams (include/data_stream.hpp and src/data_stream.tpp) as reads of the interface
-- class: what is the same before and after.
use tosdata_bridge.Prelude.{ℕ, ◌≡◌, refl, ap, ap₂, ◌∙◌, List, [], map}
use tosdata_bridge.Prelude.Int.{ℤ}
use tosdata_bridge.Prelude.Action.{Action, pure}
use tosdata_bridge.Topics.Enum.{
  ElementType, string_type, long_type, double_type, long_long_type, float_type,
}
use tosdata_bridge.Stream.State.{Stream, StreamError}
use tosdata_bridge.Stream.Read
use tosdata_bridge.Stream.Read.{Dest, null, buffer, is_null, GenericType, get_leave_marker}
use tosdata_bridge.Stream.Secondary
use tosdata_bridge.Stream.Secondary.{PairStream, on_base}
use tosdata_bridge.Getters.Interface.{Same}
use tosdata_bridge.Elements.Push.{Element, Conversions}
use tosdata_bridge.Elements.Any.{
  Values, AnyStream, plain, dated, element, is_dated, bound_size, leave_marker, both_leave,
}
use tosdata_bridge.Elements.Laws.{IsSound, data_stream_laws}
use tosdata_bridge.Elements.Copies.{copy_as, no_copy, overload, unstamped, as_any}
use tosdata_bridge.Elements.Moving.{Kept, Kept_refl, Kept_trans, KeptPair, bind_ind}
use tosdata_bridge.Elements.Kept.{get-Kept}

no_copy-kept :
    {S : Type 0} (A : Type 0) (Q : S → S → Type 0)
    → ((s : S) → Q s s)
    → (dest : Dest) (s : S) → Q s (no_copy {A = A} dest s).1
unfolding no_copy
no_copy-kept A Q same null s = same s
no_copy-kept A Q same buffer s = same s

module _ {F R : Type 0} (cv : Conversions F R) {N D S : Type 0} (Q : S → S → Type 0)
    (same : (s : S) → Q s s) (trans : (a b d : S) → Q a b → Q b d → Q a d) where
  copy_as-kept :
      {A B : Type 0} (cast : A → B) (own : Action S StreamError (N × (List A × List D)))
      (dest : Dest)
      → ((s : S) → Q s (own s).1)
      → (s : S) → Q s (copy_as cast own dest s).1
  unfolding copy_as
  copy_as-kept cast own null h s = same s
  copy_as-kept cast own buffer h s =
      bind_ind Q trans own (λ out. pure (out.0, (map cast out.1.0, out.1.1))) h (λ out s. same s) s

  -- An overload changes no more than what it calls.
  pub overload-kept :
      (t e : ElementType) (own : Dest → Action S StreamError (N × (List (Element F R e) × List D)))
      (texts : Action S StreamError (N × (List (List ℕ) × List D))) (dest : Dest)
      → ((d : Dest) (s : S) → Q s (own d s).1)
      → ((s : S) → Q s (texts s).1)
      → (s : S) → Q s (overload cv t e own texts dest s).1
  unfolding overload
  overload-kept string_type string_type own texts dest h g s = h dest s
  overload-kept string_type long_type own texts dest h g s = copy_as-kept (λ x. x) texts dest g s
  overload-kept string_type double_type own texts dest h g s = copy_as-kept (λ x. x) texts dest g s
  overload-kept string_type long_long_type own texts dest h g s =
      copy_as-kept (λ x. x) texts dest g s
  overload-kept string_type float_type own texts dest h g s = copy_as-kept (λ x. x) texts dest g s
  overload-kept long_type string_type own texts dest h g s = no_copy-kept _ Q same dest s
  overload-kept long_type long_type own texts dest h g s = h dest s
  overload-kept long_type double_type own texts dest h g s = no_copy-kept _ Q same dest s
  overload-kept long_type long_long_type own texts dest h g s = no_copy-kept _ Q same dest s
  overload-kept long_type float_type own texts dest h g s = no_copy-kept _ Q same dest s
  overload-kept double_type string_type own texts dest h g s = no_copy-kept _ Q same dest s
  overload-kept double_type long_type own texts dest h g s = no_copy-kept _ Q same dest s
  overload-kept double_type double_type own texts dest h g s = h dest s
  overload-kept double_type long_long_type own texts dest h g s = no_copy-kept _ Q same dest s
  overload-kept double_type float_type own texts dest h g s =
      copy_as-kept cv.widen (own buffer) dest (h buffer) s
  overload-kept long_long_type string_type own texts dest h g s = no_copy-kept _ Q same dest s
  overload-kept long_long_type long_type own texts dest h g s =
      copy_as-kept (λ z. z) (own buffer) dest (h buffer) s
  overload-kept long_long_type double_type own texts dest h g s = no_copy-kept _ Q same dest s
  overload-kept long_long_type long_long_type own texts dest h g s = h dest s
  overload-kept long_long_type float_type own texts dest h g s = no_copy-kept _ Q same dest s
  overload-kept float_type string_type own texts dest h g s = same s
  overload-kept float_type long_type own texts dest h g s = same s
  overload-kept float_type double_type own texts dest h g s = same s
  overload-kept float_type long_long_type own texts dest h g s = same s
  overload-kept float_type float_type own texts dest h g s = h dest s

pub unstamped-Kept :
    {A B N : Type 0} (D : Type 0) (m : Action (Stream A) StreamError (N × B))
    → ((s : Stream A) → Kept s (m s).1)
    → (s : Stream A) → Kept s (unstamped {D = D} m s).1
unstamped-Kept D m h =
    bind_ind Kept Kept_trans m (λ out. pure (out.0, (out.1, []))) h (λ out s. Kept_refl s)

pub both-Kept :
    {A G D : Type 0} (g : GenericType A G) (blank : D) (i : ℤ) (s : Stream A)
    → Kept s (Read.both g blank i s).1
unfolding Read.both
both-Kept g blank i =
    bind_ind Kept Kept_trans (Read.get g i) (λ a. pure (a, blank)) (get-Kept g i)
      (λ a s. Kept_refl s)

-- What `get_leave_marker` and `both_leave_marker` return depends on the elements and the bound alone.
leave-same :
    {A G : Type 0} (g : GenericType A G) (s t : Stream A)
    → t.deque ≡ s.deque
    → t.qbound ≡ s.qbound
    → (i : ℤ) → get_leave_marker g i t ≡ get_leave_marker g i s
unfolding get_leave_marker
leave-same g s t d b i = ap₂ (λ x n. get_leave_marker g i (record s { deque = x; qbound = n })) d b

plain_both-same :
    {A G D : Type 0} (g : GenericType A G) (blank : D) (s t : Stream A)
    → t.deque ≡ s.deque
    → t.qbound ≡ s.qbound
    → (i : ℤ) → Read.both_leave_marker g blank i t ≡ Read.both_leave_marker g blank i s
unfolding get_leave_marker Read.both_leave_marker
plain_both-same g blank s t d b i =
    ap₂ (λ x n. Read.both_leave_marker g blank i (record s { deque = x; qbound = n })) d b

dated_both-same :
    {A G D : Type 0} (g : GenericType A G) (s t : PairStream A D)
    → t.base.deque ≡ s.base.deque
    → t.base.qbound ≡ s.base.qbound
    → t.deque_secondary ≡ s.deque_secondary
    → (i : ℤ) → Secondary.both_leave_marker g i t ≡ Secondary.both_leave_marker g i s
unfolding get_leave_marker Secondary.both_leave_marker
dated_both-same g s t d b c i =
    ap₂
      (λ x n. Secondary.both_leave_marker g i (record s {
        base = record s.base { deque = x; qbound = n };
        deque_secondary = t.deque_secondary;
      }))
      d b
    ∙ ap (λ x. Secondary.both_leave_marker g i (record s { deque_secondary = x })) c

module _ {F R G D : Type 0} (vs : Values F R G D) where
  pub plain-Same :
      (e : ElementType) (k : ℕ) (s t : Stream (Element F R e))
      → Kept s t
      → IsSound vs (plain e k s)
      → Same (data_stream_laws vs) (plain e k s) (plain e k t)
  unfolding data_stream_laws element is_dated bound_size leave_marker both_leave
  plain-Same e k s t h v =
      let (w, d, b, _) = h v.0 in
      record {
        kept = λ x. (w, x.1);
        element_kept = refl;
        dated_kept = refl;
        bound_kept = b;
        values_kept = leave-same (vs.generic e) s t d b;
        stamps_kept = plain_both-same (vs.generic e) vs.blank_stamp s t d b;
      }

  dated-Same :
      (e : ElementType) (k : ℕ) (s t : PairStream (Element F R e) D)
      → KeptPair s t
      → IsSound vs (dated e k s)
      → Same (data_stream_laws vs) (dated e k s) (dated e k t)
  unfolding data_stream_laws element is_dated bound_size leave_marker both_leave
  dated-Same e k s t h v =
      let (w, d, b, _, c) = h v.0 in
      record {
        kept = λ x. (w, x.1);
        element_kept = refl;
        dated_kept = refl;
        bound_kept = b;
        values_kept = leave-same (vs.generic e) s.base t.base d b;
        stamps_kept = dated_both-same (vs.generic e) s t d b c;
      }

  pub IsSound-laws : (s : AnyStream F R D) → (data_stream_laws vs).Sound s → IsSound vs s
  unfolding data_stream_laws
  IsSound-laws s h = h

  pub as_plain :
      {A : Type 0} (e : ElementType) (k : ℕ) (m : Action (Stream (Element F R e)) StreamError A)
      → ((s : Stream (Element F R e)) → Kept s (m s).1)
      → (s : Stream (Element F R e)) → (data_stream_laws vs).Sound (plain e k s)
      → Same (data_stream_laws vs) (plain e k s) (as_any {D = D} (plain e k) m s).1
  as_plain e k m g s h = plain-Same e k s (m s).1 (g s) (IsSound-laws (plain e k s) h)

  pub as_dated :
      {A : Type 0} (e : ElementType) (k : ℕ)
      (m : Action (PairStream (Element F R e) D) StreamError A)
      → ((s : PairStream (Element F R e) D) → KeptPair s (m s).1)
      → (s : PairStream (Element F R e) D) → (data_stream_laws vs).Sound (dated e k s)
      → Same (data_stream_laws vs) (dated e k s) (as_any (dated e k) m s).1
  as_dated e k m g s h = dated-Same e k s (m s).1 (g s) (IsSound-laws (dated e k s) h)
