-- ===== src/Ipc/Tests.antt =====
-- Messages between the client library and the engine, and the theorems at concrete inputs.
use Prim.Native.String.{String}
use tosdata_bridge.Prelude.{ℕ, ◌≡◌, ◌≤◌, refl, some, List, [], ◌∷◌, true, arith}
use tosdata_bridge.Prelude.Text.{count_chars}
use tosdata_bridge.Prelude.Action.{ok}
use tosdata_bridge.Topics.Enum.{last}
use tosdata_bridge.Engine.State.{new_engine}
use tosdata_bridge.Engine.Streams.{Arrivals, Answers}
use tosdata_bridge.Engine.Handling.{handle_good_ipc_message}
use tosdata_bridge.Ipc.Args.{
  split_space, parse_args, AllWords, Apart, words, spread, parse_args_total,
}
use tosdata_bridge.Ipc.Message.{
  max_message_sz, received, request_message, stream_message, parse_ipc_message, respond,
  request_stream_op,
}
use tosdata_bridge.Ipc.RoundTrip.{parse-request}
use tosdata_bridge.Ipc.Exchange.{engine_pipe, request-fits, request-respond}

abbrev silence : Arrivals
silence = record { early = []; late = [] }

abbrev refusal : Answers
refusal = record {
  to_initiate = silence;
  to_link = silence;
  to_delink = silence;
  made = true;
  unmapped = true;
  file_closed = true;
  mutex_closed = true;
  page_size = 4096;
}

spaces : parse_args 20 " 1  LAST SPY " ≡ some ("1" ∷ "LAST" ∷ "SPY" ∷ [])
unfolding parse_args split_space
spaces = refl

parse_args_total_example :
    (l : List (ℕ × String)) × (m : ℕ) × (parse_args 6 "1  SP" ≡ some (words l))
    × ("1  SP" ≡ spread l m)
    × AllWords (words l)
    × Apart l
parse_args_total_example = parse_args_total 6 "1  SP" (omega arith)

request_short : count_chars (request_message 1 last "SPY" 2000) ≤ max_message_sz
request_short = request-fits 1 last "SPY" 2000 refl (omega arith) (omega arith)

parse-request_example :
    parse_ipc_message (received (request_message 1 last "SPY" 2000))
    ≡ some (stream_message 1 last "SPY" 2000)
parse-request_example =
    parse-request 1 last "SPY" 2000 (omega arith) (omega arith) refl refl (refl, refl) request_short

request-respond_example :
    let r = handle_good_ipc_message {X = ℕ} 0 1 last "SPY" refusal refusal new_engine in
    (request_stream_op true (engine_pipe {X = ℕ} 0 refusal refusal new_engine) last "SPY" 2000 1
      ≡ ok r.0)
    × (respond {X = ℕ} 0 (received (request_message 1 last "SPY" 2000)) refusal refusal new_engine
        ≡ r)
request-respond_example =
    request-respond {X = ℕ} 0 refusal refusal new_engine 1 last "SPY" 2000 refl (omega arith) refl
      (refl, refl) (omega arith)
