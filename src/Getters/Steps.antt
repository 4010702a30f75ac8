-- ===== src/Getters/Steps.antt =====
-- What the calls of src/client/client_get.cpp have in common leaves the values of the streams as they were.
use Prim.Native.String.{String}
use tosdata_bridge.Prelude.{
  ℕ, ◌≡◌, refl, sym, subst, ◌∙◌, not, ◌&&◌, Option, none, some, List, [], if_ind, if◌then◌else◌,
  ◌==◌,
}
use tosdata_bridge.Prelude.Int.{ℤ, to_int}
use tosdata_bridge.Prelude.Action.{Result, ok, err, Action, ◌>>=◌, pure}
use tosdata_bridge.Topics.Enum.{Topic, null_topic}
use tosdata_bridge.Topics.Map.{topic_eq, topic_of}
use tosdata_bridge.Stream.State.{StreamError, std_out_of_range}
use tosdata_bridge.Stream.Read.{Dest, buffer}
use tosdata_bridge.Block.Interface.{StreamClass, StreamLaws}
use tosdata_bridge.Client.State.{Client, error_bad_input, error_bad_topic}
use tosdata_bridge.Client.Valid.{is_valid_block_id, check_string_length}
use tosdata_bridge.Elements.Moving.{bind_ind}
use tosdata_bridge.Getters.Interface.{Copies, ReadClass, Same, IsRead, CopyLaws, ReadLaws}
use tosdata_bridge.Getters.State.{
  Thrown, raw_error, get_error, stream_thrown, invalid_call, doesnt_exist, with_stream, caught,
  ask_stream, rethrown, read_or_throw,
}
use tosdata_bridge.Getters.Snapshots.{
  snapshot_range, snapshot_length, snapshot_copy, snapshot_checked, refused, vectors, snapshot_read,
}
use tosdata_bridge.Getters.Marked.{sized}
use tosdata_bridge.Getters.Untouched.{AllValid, Untouched, Untouched-refl, with_stream-Untouched}

caught-state :
    {A S : Type 0} (error : ℤ) (p : Result Thrown A × Client S) → (caught error p).1 ≡ p.1
unfolding caught
caught-state error (ok a, s) = refl
caught-state error (err doesnt_exist, s) = refl
caught-state error (err e, s) = refl

pub refused-state : {A S : Type 0} (p : Result Thrown (Option A) × Client S) → (refused p).1 ≡ p.1
unfolding refused
refused-state (ok none, s) = refl
refused-state (ok (some v), s) = refl
refused-state (err e, s) = refl

rethrown-state : {A S : Type 0} (p : Result Thrown A × Client S) → (rethrown p).1 ≡ p.1
unfolding rethrown
rethrown-state (ok a, s) = refl
rethrown-state (err (stream_thrown std_out_of_range), s) = refl
rethrown-state (err (stream_thrown e), s) = refl
rethrown-state (err doesnt_exist, s) = refl
rethrown-state (err (raw_error e), s) = refl
rethrown-state (err get_error, s) = refl
rethrown-state (err invalid_call, s) = refl

module _ {E V G D S : Type 0} {c : StreamClass E V G D S} (laws : StreamLaws c) where
  Same-trans : (a b d : S) → Same laws a b → Same laws b d → Same laws a d
  Same-trans a b d h g = record {
    kept = λ x. g.kept (h.kept x);
    element_kept = g.element_kept ∙ h.element_kept;
    dated_kept = g.dated_kept ∙ h.dated_kept;
    bound_kept = g.bound_kept ∙ h.bound_kept;
    values_kept = λ i. g.values_kept i ∙ h.values_kept i;
    stamps_kept = λ i. g.stamps_kept i ∙ h.stamps_kept i;
  }

  pub pure-IsRead : {A : Type 0} (a : A) → IsRead laws (pure a)
  pure-IsRead a s v = record {
    kept = λ x. x;
    element_kept = refl;
    dated_kept = refl;
    bound_kept = refl;
    values_kept = λ i. refl;
    stamps_kept = λ i. refl;
  }

  pub bind-IsRead :
      {A B : Type 0} (m : Action S StreamError A) (f : A → Action S StreamError B)
      → IsRead laws m
      → ((a : A) → IsRead laws (f a))
      → IsRead laws (m >>= f)
  bind-IsRead m f h g =
      bind_ind (λ a b. laws.Sound a → Same laws a b)
        (λ a b d p q v. Same-trans a b d (p v) (q ((p v).kept v))) m f h g

  pub vectors-IsRead :
      (r : ReadClass G D S) (w : ReadLaws laws r) (end beg : ℤ) → IsRead laws (vectors r end beg)
  vectors-IsRead r w end beg =
      bind-IsRead (r.vector end beg) (λ v. r.secondary_vector end beg >>= λ d. pure (v, d))
        (w.vectors end beg)
        (λ v.
          bind-IsRead (r.secondary_vector end beg) (λ d. pure (v, d)) (w.secondary_vectors end beg)
            (λ d. let both : List G × List D = (v, d) in pure-IsRead both))

  pub sized-IsRead :
      {A : Type 0} (m : Action S StreamError (ℤ × A)) → IsRead laws m → IsRead laws (sized m)
  sized-IsRead {A} m h =
      bind-IsRead m (λ out. pure (to_int out.0, out.1)) h
        (λ out. let next : ℤ × A = (to_int out.0, out.1) in pure-IsRead next)

  module _ {X : Type 0} (r : ReadClass G D S) (k : Copies X D S) (w : CopyLaws laws k)
      (dts : Dest) where
    snapshot_copy-IsRead : (end beg : ℤ) (n : ℕ) → IsRead laws (snapshot_copy r k dts end beg n)
    unfolding snapshot_copy
    snapshot_copy-IsRead end beg n =
        let none_copied : Option (ℕ × (List X × List D)) = some (0, ([], [])) in
        if_ind (IsRead laws) (n == 0) (pure none_copied)
          (k.copy buffer dts n end beg >>= λ out. pure (some (n, out.1))) (pure-IsRead none_copied)
          (bind-IsRead (k.copy buffer dts n end beg) (λ out. pure (some (n, out.1)))
            (w.copies buffer dts n end beg)
            (λ out.
              let copied : Option (ℕ × (List X × List D)) = some (n, out.1) in pure-IsRead copied))

    snapshot_checked-IsRead :
        (end beg : ℤ) (n : Option ℕ) → IsRead laws (snapshot_checked r k dts end beg n)
    unfolding snapshot_checked
    snapshot_checked-IsRead end beg none =
        let nothing : Option (ℕ × (List X × List D)) = none in pure-IsRead nothing
    snapshot_checked-IsRead end beg (some n) = snapshot_copy-IsRead end beg n

    pub snapshot_read-IsRead : (end beg : ℤ) → IsRead laws (snapshot_read r k dts end beg)
    unfolding snapshot_read
    snapshot_read-IsRead end beg p v =
        let (e, b) = snapshot_range r k end beg p in
        snapshot_checked-IsRead e b (snapshot_length (r.size p) e b) p v

  module _ (element_of : Topic → E) {A : Type 0} (read : Action S StreamError A)
      (is_read : IsRead laws read) (id item : String) (s : Client S)
      (v : AllValid laws element_of s) where
    pub caught-Untouched :
        (error : ℤ) (t : Topic)
        → Untouched laws element_of s (caught error (with_stream read id item t s)).1
    caught-Untouched error t =
        subst (Untouched laws element_of s)
          (sym (caught-state error (with_stream read id item t s)))
          (with_stream-Untouched laws element_of read is_read id item t s v)

    pub ask_stream-Untouched :
        (error : ℤ) (topic_str : String)
        → Untouched laws element_of s (ask_stream error read id item topic_str s).1
    unfolding ask_stream
    ask_stream-Untouched error topic_str =
        if_ind (λ (o : (ℤ × Option A) × Client S). Untouched laws element_of s o.1)
          (not (is_valid_block_id id && check_string_length item && check_string_length topic_str))
          ((error_bad_input, none), s)
          (if topic_eq.beq (topic_of topic_str) null_topic
            then ((error_bad_topic, none), s)
            else caught error (with_stream read id item (topic_of topic_str) s))
          (Untouched-refl laws element_of s v)
          (if_ind (λ (o : (ℤ × Option A) × Client S). Untouched laws element_of s o.1)
            (topic_eq.beq (topic_of topic_str) null_topic) ((error_bad_topic, none), s)
            (caught error (with_stream read id item (topic_of topic_str) s))
            (Untouched-refl laws element_of s v) (caught-Untouched error (topic_of topic_str)))

    pub read_or_throw-Untouched :
        (t : Topic) → Untouched laws element_of s (read_or_throw read id item t s).1
    unfolding read_or_throw
    read_or_throw-Untouched t =
        if_ind (λ (o : Result Thrown A × Client S). Untouched laws element_of s o.1)
          (topic_eq.beq t null_topic) (err invalid_call, s)
          (rethrown (with_stream read id item t s)) (Untouched-refl laws element_of s v)
          (subst (Untouched laws element_of s) (sym (rethrown-state (with_stream read id item t s)))
            (with_stream-Untouched laws element_of read is_read id item t s v))
