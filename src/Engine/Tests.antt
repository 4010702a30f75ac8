-- ===== src/Engine/Tests.antt =====
-- An engine (src/service/engine.cpp) with one stream that is held twice, and the theorems on it.
use Prim.Native.String.{String}
use tosdata_bridge.Prelude.{
  ℕ, ◌≡◌, refl, ◌-◌, ◌==◌, true, false, List, [], ◌∷◌, arith, if◌then◌else◌, ◌&&◌, ◌+◌,
}
use tosdata_bridge.TwoWayMap.{empty_map}
use tosdata_bridge.Topics.Enum.{Topic, last, bid}
use tosdata_bridge.Engine.State.{Engine, convo_ack, item_ack, new_engine}
use tosdata_bridge.Engine.Streams.{
  Arrivals, Answers, stream_buffer, add_stream, remove_stream, remove_all_streams,
}
use tosdata_bridge.Engine.Counts.{count, IsTracked}
use tosdata_bridge.Engine.Adding.{Added, add_stream-Added}
use tosdata_bridge.Engine.Removing.{is_missing}
use tosdata_bridge.Engine.Holding.{same_stream, is_done, add_stream-count, remove_stream-count}
use tosdata_bridge.Engine.Clearing.{remove_all_streams-count}
use tosdata_bridge.Engine.Handling.{Event, message, deliver, run, replies}
use tosdata_bridge.Engine.Reachable.{run-new_engine, tally}
use tosdata_bridge.Signals.{new_signals}

abbrev no_acks : Arrivals
no_acks = record { early = []; late = [] }

-- All that TOS and the system are asked for succeeds, in the conversation of window 7.
abbrev willing : Answers
willing = record {
  to_initiate = record { early = convo_ack (116 ∷ 79 ∷ 83 ∷ []) "LAST" 7 ∷ []; late = [] };
  to_link = record { early = item_ack 32768 "SPY" 7 ∷ []; late = [] };
  to_delink = record { early = item_ack 32768 "SPY" 7 ∷ []; late = [] };
  made = true;
  unmapped = true;
  file_closed = true;
  mutex_closed = true;
  page_size = 4096;
}

-- Nothing answers.
abbrev silent : Answers
silent = record {
  to_initiate = no_acks;
  to_link = no_acks;
  to_delink = no_acks;
  made = true;
  unmapped = true;
  file_closed = true;
  mutex_closed = true;
  page_size = 4096;
}

abbrev twice : Engine ℕ
twice = record {
  topic_refcounts = (last, ("SPY", 2) ∷ []) ∷ [];
  buffers = (("SPY", last), stream_buffer 0 last willing) ∷ [];
  convos = empty_map;
  ack_signals = new_signals;
  pause_flag = false;
  shutdown_flag = false;
}

twice-IsTracked : IsTracked twice
twice-IsTracked = record {
  topics_distinct = (refl, tt);
  opened = (((refl, tt), refl, (omega arith, tt), refl), tt);
  buffered = λ t i. ground arith;
}

abbrev session : List (Event ℕ)
session =
    message 1 last "SPY" willing silent
    ∷ message 1 bid "SPY" silent silent
    ∷ deliver 7 "SPY" 5
    ∷ message 1 last "SPY" silent silent
    ∷ message 2 last "SPY" silent silent
    ∷ message 9 last "SPY" silent silent
    ∷ []

run-new_engine_example :
    IsTracked (run 0 session new_engine)
    × ((u : Topic) (j : String)
        → count u j (run 0 session new_engine) ≡ tally (replies 0 session new_engine) u j 0)
run-new_engine_example = run-new_engine 0 session (omega arith)

add_stream-Added_example :
    let r = add_stream 0 bid "SPY" silent twice in Added 0 bid "SPY" silent twice-IsTracked r.0 r.1
add_stream-Added_example = add_stream-Added 0 bid "SPY" silent twice-IsTracked refl

remove_stream-count_example :
    let r = remove_stream last "SPY" silent twice in
    (is_missing r.0 ≡ (count last "SPY" twice == 0))
    × ((u : Topic) (j : String)
        → count u j r.1
          ≡ (if same_stream last "SPY" u j then count last "SPY" twice - 1 else count u j twice))
remove_stream-count_example = remove_stream-count twice-IsTracked last "SPY" silent refl

add_stream-count_example :
    let r = add_stream 0 last "SPY" silent twice in
    count last "SPY" r.1 ≡ (
      if is_done r.0 && same_stream last "SPY" last "SPY"
      then count last "SPY" twice + 1
      else count last "SPY" twice)
add_stream-count_example =
    add_stream-count twice-IsTracked last "SPY" silent 0 (omega arith) last "SPY"

remove_all_streams-count_example :
    let s = remove_all_streams (λ t i. willing) twice in
    IsTracked s × ((u : Topic) (j : String) → count u j s ≡ count u j twice - 1)
remove_all_streams-count_example = remove_all_streams-count (λ t i. willing) twice-IsTracked
