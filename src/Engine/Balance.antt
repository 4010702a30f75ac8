-- ===== src/Engine/Balance.antt =====
-- The engine (src/service/engine.cpp) and one event: the counts that an event and its reply leave.
use Prim.Native.String.{String}
use mathlib.Core.Bool.{false≢true}
use tosdata_bridge.Prelude.{
  ℕ, ◌+◌, ◌-◌, ◌<◌, ◌≡◌, refl, sym, ap, ap₂, subst, ◌∙◌, Bool, true, false, ◌&&◌, arith, ◌==◌,
  if◌then◌else◌, Option-cases, Bool-cases, inl, inr, ==_iff,
}
use tosdata_bridge.Prelude.Int.{ℤ, pos, negsuc, size_mod}
use tosdata_bridge.Prelude.Dict.{nat_eq, lookup, is_some, Every-lookup}
use tosdata_bridge.Prelude.Table.{pair_eq, is_some-set_at}
use tosdata_bridge.TwoWayMap.{key_at}
use tosdata_bridge.Shared.State.{route_to_buffer}
use tosdata_bridge.Topics.Enum.{Topic, null_topic}
use tosdata_bridge.Topics.Map.{topic_eq, text_eq}
use tosdata_bridge.Engine.State.{Engine, handle_data}
use tosdata_bridge.Engine.Streams.{
  StreamStatus, done, bad_topic, no_topic, no_item, dde_post, dde_no_ack, shem_buffer, status_code,
  Answers, items_of, add_stream, remove_stream, test_stream,
}
use tosdata_bridge.Engine.Counts.{held, count, IsOpen, IsTracked}
use tosdata_bridge.Engine.Handling.{
  sig_add, sig_remove, sig_test, control, Event, message, arrive, deliver, handle_good_ipc_message,
}
use tosdata_bridge.Engine.Holding.{
  same_stream, same_stream-eq, is_done, add_stream-count, remove_stream-count,
}
use tosdata_bridge.Engine.Removing.{remove_stream-null}
use tosdata_bridge.Engine.Clearing.{test_stream-IsTracked, test_stream-count}
use tosdata_bridge.Engine.Invariant.{add_stream-IsTracked, remove_stream-IsTracked}

abbrev pub is_zero : ℤ → Bool
is_zero (pos n) = n == 0
is_zero (negsuc n) = false

-- What an event and its reply say of how often a stream is held: a client that is told 0 holds the
-- stream once more, and one that lets go of it holds it once less.
abbrev pub balance : {X : Type 0} → Event X → ℤ → Topic → String → ℕ → ℕ
balance (message op t i a a') reply u j n =
    if same_stream t i u j && (op == sig_add) && is_zero reply
    then n + 1
    else if same_stream t i u j && (op == sig_remove)
    then n - 1
    else n
balance (arrive acks) reply u j n = n
balance (deliver window item x) reply u j n = n

is_zero-status_code : (e : StreamStatus) → is_zero (status_code e) ≡ is_done e
is_zero-status_code done = refl
is_zero-status_code bad_topic = refl
is_zero-status_code no_topic = refl
is_zero-status_code no_item = refl
is_zero-status_code dde_post = refl
is_zero-status_code dde_no_ack = refl
is_zero-status_code shem_buffer = refl

abbrev pub Kept : {X : Type 0} → Engine X → Engine X → Type 0
Kept s r = IsTracked r × ((u : Topic) (j : String) → count u j r ≡ count u j s)

balance-none :
    (b p q z : Bool) (n : ℕ)
    → p ≡ false
    → q ≡ false
    → (if b && p && z then n + 1 else if b && q then n - 1 else n) ≡ n
balance-none true p q z n e f = rw (e, f)
balance-none false p q z n e f = refl

module _ {X : Type 0} (blank : X) {s : Engine X} (v : IsTracked s) where
  pub keep :
      (r : Engine X)
      → r.topic_refcounts ≡ s.topic_refcounts
      → ((u : Topic) (j : String)
          → is_some (lookup (j, u) r.buffers) ≡ is_some (lookup (j, u) s.buffers))
      → Kept s r
  keep r e f = (
    record {
      topics_distinct = rw e v.topics_distinct;
      opened = rw e v.opened;
      buffered = λ u j. rw e (f u j ∙ v.buffered u j);
    },
    λ u j. ap (λ m. held j (items_of u m)) e,
  )

  null-count : (t : Topic) (i : String) → topic_eq.beq t null_topic ≡ true → count t i s ≡ 0
  null-count t i x = elim (Option-cases (lookup t s.topic_refcounts)) [
    | inl h ↦ ground (arith, h)
    | inr (items, h) ↦
        absurd (false≢true (sym (Every-lookup IsOpen t items s.topic_refcounts v.opened h).3 ∙ x))
  ]

  remove_counts :
      (t : Topic) (i : String) (a : Answers) (u : Topic) (j : String)
      → count u j (remove_stream t i a s).1
        ≡ (if same_stream t i u j then count t i s - 1 else count u j s)
  remove_counts t i a u j = elim (Bool-cases (topic_eq.beq t null_topic)) [
    | inl x ↦
        ap (λ r. count u j r.1) (remove_stream-null t i a s x)
        ∙ elim (Bool-cases (same_stream t i u j)) [
          | inl b ↦
              let (p, q) = same_stream-eq t i u j b in
              let c : count t i s ≡ count u j s = ap₂ (λ k l. count k l s) p q in
              rw b (omega (arith, c, null-count t i x))
          | inr b ↦ rw b
        ]
    | inr x ↦ (remove_stream-count v t i a x).1 u j
  ]

  handle_data-buffers :
      (window : ℕ) (i : String) (x : X) (u : Topic) (j : String)
      → is_some (lookup (j, u) (handle_data window i x s).buffers)
        ≡ is_some (lookup (j, u) s.buffers)
  unfolding handle_data
  handle_data-buffers window i x u j =
      let id : String × Topic = (i, key_at null_topic window s.convos) in
      elim (Bool-cases s.pause_flag) [
        | inl e ↦ rw e
        | inr e ↦ elim (Option-cases (lookup id s.buffers)) [
          | inl h ↦ ground (arith, e, h)
          | inr (b, h) ↦
              ground (arith, e, h, is_some-set_at id (j, u) (route_to_buffer x b) s.buffers)
        ]
      ]

  pub handle_data-Kept : (window : ℕ) (i : String) (x : X) → Kept s (handle_data window i x s)
  unfolding handle_data
  handle_data-Kept window i x =
      keep (handle_data window i x s) (ground arith) (λ u j. handle_data-buffers window i x u j)

  module _ (t : Topic) (i : String) (a a' : Answers) (h : count t i s + 1 < size_mod) where
    abbrev pub Balanced : ℕ → ℤ × Engine X → Type 0
    Balanced op r =
        IsTracked r.1
        × ((u : Topic) (j : String)
            → count u j r.1 ≡ balance {X = X} (message op t i a a') r.0 u j (count u j s))

    balance-add :
        (e : StreamStatus) (u : Topic) (j : String)
        → (if is_done e && same_stream t i u j then count t i s + 1 else count u j s)
          ≡ balance {X = X} (message 1 t i a a') (status_code e) u j (count u j s)
    balance-add e u j = elim (Bool-cases (same_stream t i u j)) [
      | inl b ↦
          let (p, q) = same_stream-eq t i u j b in
          let c : count t i s ≡ count u j s = ap₂ (λ k l. count k l s) p q in
          ground (arith, b, c, is_zero-status_code e)
      | inr b ↦ ground (arith, b)
    ]

    add-Balanced : let r = add_stream blank t i a s in Balanced 1 (status_code r.0, r.1)
    add-Balanced = (
      add_stream-IsTracked t i a v blank h,
      λ u j. add_stream-count v t i a blank h u j ∙ balance-add (add_stream blank t i a s).0 u j,
    )

    balance-remove :
        (e : StreamStatus) (u : Topic) (j : String)
        → (if same_stream t i u j then count t i s - 1 else count u j s)
          ≡ balance {X = X} (message 2 t i a a') (status_code e) u j (count u j s)
    balance-remove e u j = elim (Bool-cases (same_stream t i u j)) [
      | inl b ↦
          let (p, q) = same_stream-eq t i u j b in
          let c : count t i s ≡ count u j s = ap₂ (λ k l. count k l s) p q in ground (arith, b, c)
      | inr b ↦ ground (arith, b)
    ]

    remove-Balanced : let r = remove_stream t i a s in Balanced 2 (status_code r.0, r.1)
    remove-Balanced = (
      remove_stream-IsTracked t i a v,
      λ u j. remove_counts t i a u j ∙ balance-remove (remove_stream t i a s).0 u j,
    )

    test-Balanced : let r = test_stream blank t i a a' s in Balanced 9 (status_code r.0, r.1)
    test-Balanced = (
      test_stream-IsTracked v blank t i a a' h,
      λ u j.
          let r = test_stream blank t i a a' s in
          test_stream-count v blank t i a a' h u j
          ∙ sym (
              balance-none (same_stream t i u j) false false (is_zero (status_code r.0))
                (count u j s) refl refl),
    )

    control-Balanced :
        (op : ℕ)
        → (op == sig_add) ≡ false
        → (op == sig_remove) ≡ false
        → Balanced op (control blank op s)
    unfolding control
    control-Balanced op e f =
        let r = control blank op s in
        let (w, c) = keep r.1 (ground arith) (λ u j. ground arith) in
        (
          w,
          λ u j.
              c u j
              ∙ sym (
                  balance-none (same_stream t i u j) (op == sig_add) (op == sig_remove)
                    (is_zero r.0) (count u j s) e f),
        )

    pub message-Balanced : (op : ℕ) → Balanced op (handle_good_ipc_message blank op t i a a' s)
    unfolding handle_good_ipc_message
    message-Balanced op =
        let P = λ (k : ℕ). Balanced k (handle_good_ipc_message blank k t i a a' s) in
        elim (Bool-cases (op == sig_add)) [
          | inl e ↦ subst P (sym ((==_iff op 1).0 e)) add-Balanced
          | inr e ↦ elim (Bool-cases (op == sig_remove)) [
            | inl f ↦ subst P (sym ((==_iff op 2).0 f)) remove-Balanced
            | inr f ↦ elim (Bool-cases (op == sig_test)) [
              | inl g ↦ subst P (sym ((==_iff op 9).0 g)) test-Balanced
              | inr g ↦
                  let q : handle_good_ipc_message blank op t i a a' s ≡ control blank op s =
                    rw (e, f, g) in
                  subst (Balanced op) (sym q) (control-Balanced op e f)
            ]
          ]
        ]
