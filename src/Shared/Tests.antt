-- ===== src/Shared/Tests.antt =====
-- A ring of three places, and the theorems on it.
use tosdata_bridge.Prelude.{ℕ, ◌≡◌, ◌≤◌, [], ◌∷◌, arith, ◌/◌}
use tosdata_bridge.Prelude.Action.{ok}
use tosdata_bridge.Shared.State.{Buffer, new_reader, synced, create_buffer}
use tosdata_bridge.Shared.Ring.{IsRing}
use tosdata_bridge.Shared.Delivery.{poll, poll-lossless}
use tosdata_bridge.Shared.Created.{create_buffer-IsRing}

abbrev three_places : Buffer ℕ
three_places = record {
  loop_seq = 4294967295;
  elem_size = 50;
  beg_offset = 20;
  end_offset = 170;
  next_offset = 120;
  memory = λ offset. 0;
}

three_places-IsRing : IsRing 3 2 three_places
three_places-IsRing = omega arith

poll-lossless_example :
    poll ((5 ∷ 6 ∷ []) ∷ [] ∷ (7 ∷ 8 ∷ 9 ∷ []) ∷ []) (synced three_places) three_places
    ≡ ok (5 ∷ 6 ∷ []) ∷ ok [] ∷ ok (7 ∷ 8 ∷ 9 ∷ []) ∷ []
poll-lossless_example =
    poll-lossless 3 2 ((5 ∷ 6 ∷ []) ∷ [] ∷ (7 ∷ 8 ∷ 9 ∷ []) ∷ []) three_places-IsRing (omega arith)

-- One page, and elements of type `double`.
create_buffer-IsRing_example :
    let b = create_buffer {X = ℕ} 0 4096 4096 8 in
    (1 ≤ 4076 / 48) × IsRing (4076 / 48) 0 b × (synced b ≡ new_reader)
create_buffer-IsRing_example =
    create_buffer-IsRing 0 4096 4096 8 (omega arith) (omega arith) (omega arith) (omega arith)
