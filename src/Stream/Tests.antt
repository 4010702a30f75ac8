-- ===== src/Stream/Tests.antt =====
-- Runs of the streams on small inputs, and the theorems at concrete inputs.
use mathlib.Core.List.{zip}
use tosdata_bridge.Prelude.{
  ℕ, ◌≡◌, refl, inl, inr, Bool, true, false, List, [], ◌∷◌, arith, ◌<◌, ◌⊎◌, length,
}
use tosdata_bridge.Prelude.Int.{pos, negsuc, ◌+ℤ◌, ◌-ℤ◌, to_int, to_size}
use tosdata_bridge.Prelude.Action.{ok}
use tosdata_bridge.Stream.State.{Stream, adjust, check_range, check_adj, new_stream, push}
use tosdata_bridge.Stream.Read.{buffer, GenericType, set_mark, copy_to_ptr, copy, get}
use tosdata_bridge.Stream.Marker.{first_index, sign_count, copy_from_marker}
use tosdata_bridge.Stream.Secondary
use tosdata_bridge.Stream.Secondary.{PairStream}
use tosdata_bridge.Stream.Invariant.{IsValid}
use tosdata_bridge.Stream.Index.{Names, copied}
use tosdata_bridge.Stream.Window.{recent, push_all, recent-push_all}
use tosdata_bridge.Stream.Unread.{IsUnread}
use tosdata_bridge.Stream.Delivery.{
  copy_from_marker-push_all, session, session-lossless, drain, drain-all,
}
use tosdata_bridge.Stream.Reachable.{
  pushes, bounds, reads, gets, read, copies, run, read-Moved, run-new_stream-IsValid,
}
use tosdata_bridge.Stream.Stamped.{copy-pairs}
use tosdata_bridge.Stream.Paired.{IsPaired, paired, push_refines}

abbrev numbers : GenericType ℕ ℕ
numbers = record { of_value = λ n. n; as_string = λ n. n ∷ [] }

-- A stream of three places, read up to its head, that holds 7.
abbrev started : Stream ℕ
started = record {
  deque = 7 ∷ 0 ∷ 0 ∷ [];
  qbound = 3;
  qcount = 1;
  mark_count = negsuc 0;
  mark_is_dirty = false;
  push_has_priority = true;
}

abbrev burst : List (Bool × ℕ)
burst = (true, 1) ∷ (true, 2) ∷ (false, 3) ∷ (true, 4) ∷ []

started-IsValid : IsValid started
started-IsValid = omega arith

started-IsUnread : IsUnread 0 false started
unfolding ◌-ℤ◌
started-IsUnread = record { marked = refl; flagged = refl; arrived = omega arith }

started-runs : (get numbers (pos 0) (push true 7 (new_stream 0 3))) ≡ (ok 7, started)
unfolding new_stream push get set_mark ◌+ℤ◌ ◌-ℤ◌
started-runs = refl

-- Four pushes into three places: the count is negative.
burst-runs :
    (copy_from_marker buffer 9 (pos 0) (push_all burst started)).0 ≡ ok (negsuc 2, 4 ∷ 3 ∷ 2 ∷ [])
unfolding push_all push copy_from_marker first_index sign_count copy set_mark check_adj check_range
    adjust to_int to_size copy_to_ptr ◌+ℤ◌ ◌-ℤ◌
burst-runs = refl

-- One element is written into an array of none.
copy_no_room : (copy buffer 0 (pos 0) (pos 0) started).0 ≡ ok (1, 7 ∷ [])
unfolding copy check_adj check_range adjust to_int to_size
copy_no_room = refl

run-new_stream-IsValid_example :
    IsValid (run numbers 0 (pushes true 7 ∷ reads (gets (pos 9)) ∷ bounds 0 ∷ []) (new_stream 0 3))
run-new_stream-IsValid_example =
    run-new_stream-IsValid numbers 0 3 (pushes true 7 ∷ reads (gets (pos 9)) ∷ bounds 0 ∷ [])

session-lossless_example :
    (session 2 (((true, 1) ∷ (true, 2) ∷ []) ∷ [] ∷ ((true, 3) ∷ []) ∷ []) started).0
    ≡ ok (pos 2, 2 ∷ 1 ∷ []) ∷ ok (pos 0, []) ∷ ok (pos 1, 3 ∷ []) ∷ []
session-lossless_example =
    session-lossless 2 (((true, 1) ∷ (true, 2) ∷ []) ∷ [] ∷ ((true, 3) ∷ []) ∷ []) started-IsValid
      started-IsUnread (omega arith) (omega arith)

copy_from_marker-push_all_example :
    copy_from_marker buffer 9 (pos 0) (push_all burst started)
    ≡ (ok (negsuc 2, 4 ∷ 3 ∷ 2 ∷ []), set_mark 0 (push_all burst started))
copy_from_marker-push_all_example =
    copy_from_marker-push_all burst 9 started-IsValid started-IsUnread (omega arith) (omega arith)
      (omega arith)

-- Two new elements, of which the older one is read.
abbrev waiting : Stream ℕ
waiting = record {
  deque = 2 ∷ 1 ∷ 7 ∷ [];
  qbound = 3;
  qcount = 3;
  mark_count = pos 1;
  mark_is_dirty = false;
  push_has_priority = true;
}

waiting-IsValid : IsValid waiting
waiting-IsValid = omega arith

waiting-IsUnread : IsUnread 2 false waiting
unfolding ◌-ℤ◌
waiting-IsUnread = record { marked = refl; flagged = refl; arrived = omega arith }

drain-all_example : ((drain 2 1 waiting).0 ≡ 2 ∷ 1 ∷ []) × IsUnread 0 false (drain 2 1 waiting).1
drain-all_example =
    drain-all 2 2 1 waiting-IsValid waiting-IsUnread (omega arith) (omega arith) (omega arith)

recent-push_all_example : recent (push_all burst started) ≡ 4 ∷ 3 ∷ 2 ∷ []
recent-push_all_example = recent-push_all burst started-IsValid

read-Moved_example :
    let t = read numbers (copies buffer 5 (pos 1) (negsuc 1)) waiting in
    (t ≡ waiting) ⊎ ((b : ℕ) × (b < 3) × (t ≡ set_mark b waiting))
read-Moved_example = read-Moved numbers (copies buffer 5 (pos 1) (negsuc 1)) waiting-IsValid

third-Names : Names 3 (negsuc 0) 2
unfolding ◌+ℤ◌
third-Names = (omega arith, inr (omega arith, refl))

second-Names : Names 3 (pos 1) 1
second-Names = (omega arith, inl refl)

abbrev stamped : PairStream ℕ ℕ
stamped = record { base = waiting; deque_secondary = 20 ∷ 10 ∷ 0 ∷ [] }

stamped-IsPaired : IsPaired stamped
stamped-IsPaired = record { valid = waiting-IsValid; full_secondary = omega arith }

push_refines_example :
    paired (Secondary.push true 3 30 stamped) ≡ push true (3, 30) (paired stamped)
push_refines_example = push_refines true 3 30 stamped-IsPaired

copy-pairs_example :
    (xs : List ℕ) × (ds : List ℕ) × (Secondary.copy buffer buffer 5 (negsuc 0) (pos 0) stamped
      ≡ (ok (length ds, (xs, ds)), record stamped { base = set_mark 0 waiting }))
    × (length ds ≡ length xs)
    × (zip xs ds ≡ copied (paired stamped) 5 2 0)
copy-pairs_example =
    copy-pairs stamped-IsPaired 5 (negsuc 0) (pos 0) 2 0 third-Names (omega arith, inl refl)
      (omega arith) (omega arith)
