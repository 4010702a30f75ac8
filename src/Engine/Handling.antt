-- ===== src/Engine/Handling.antt =====
-- src/service/engine.cpp: what the main loop does with a message, and the engine's two threads as a
-- sequence of events.
use Prim.Native.String.{String}
use tosdata_bridge.Prelude.{ℕ, true, false, List, [], ◌∷◌, ◌==◌, if◌then◌else◌}
use tosdata_bridge.Prelude.Int.{ℤ, pos, negsuc}
use tosdata_bridge.Topics.Enum.{Topic}
use tosdata_bridge.Topics.Map.{topic_eq}
use tosdata_bridge.Signals.{signal_all}
use tosdata_bridge.Engine.State.{Engine, Ack, signals_of, greet, handle_data}
use tosdata_bridge.Engine.Streams.{status_code, Answers, add_stream, remove_stream, test_stream}

-- `TOSDB_SIG_...`
abbrev pub sig_add : ℕ
sig_add = 1

abbrev pub sig_remove : ℕ
sig_remove = 2

abbrev pub sig_pause : ℕ
sig_pause = 3

abbrev pub sig_continue : ℕ
sig_continue = 4

abbrev pub sig_stop : ℕ
sig_stop = 5

abbrev pub sig_dump : ℕ
sig_dump = 6

abbrev pub sig_good : ℕ
sig_good = 7

abbrev pub sig_bad : ℕ
sig_bad = 8

abbrev pub sig_test : ℕ
sig_test = 9

-- `TOSDB_ERROR_IPC_MSG`
abbrev pub error_ipc_msg : ℤ
error_ipc_msg = negsuc 12

module _ {X : Type 0} (blank : X) where
  -- The cases of `HandleGoodIPCMessage` that take an opcode alone; a dump only writes to a file.
  unfoldable pub control : ℕ → Engine X → ℤ × Engine X
  control op s =
      if op == sig_pause
      then (pos sig_good, record s { pause_flag = true })
      else if op == sig_continue
      then (pos sig_good, record s { pause_flag = false })
      else if op == sig_stop
      then (pos sig_good, record s { shutdown_flag = true })
      else if op == sig_dump
      then (pos sig_good, s)
      else (pos sig_bad, s)

  -- `HandleGoodIPCMessage`: what it returns is the reply. `a` and `a'` are the answers to the
  -- operations.
  unfoldable pub handle_good_ipc_message :
      ℕ → Topic → String → Answers → Answers → Engine X → ℤ × Engine X
  handle_good_ipc_message op t item a a' s =
      if op == sig_add
      then (let (e, s1) = add_stream blank t item a s in (status_code e, s1))
      else if op == sig_remove
      then (let (e, s1) = remove_stream t item a s in (status_code e, s1))
      else if op == sig_test
      then (let (e, s1) = test_stream blank t item a a' s in (status_code e, s1))
      else control op s

  -- The message thread, between the operations: `WM_DDE_ACK`.
  unfoldable pub handle_acks : List Ack → Engine X → Engine X
  handle_acks acks s = record s {
    ack_signals = signal_all (signals_of acks) s.ack_signals;
    convos = greet acks s.convos;
  }

-- What happens to the engine.
pub data Event (X : Type 0) : Type 0 where
  message : (op : ℕ) → (t : Topic) → (item : String) → (a a' : Answers) → Event X
  arrive : (acks : List Ack) → Event X
  deliver : (window : ℕ) → (item : String) → (x : X) → Event X

module _ {X : Type 0} (blank : X) where
  -- The reply, 0 where none is sent, and the state afterwards.
  unfoldable pub happen : Event X → Engine X → ℤ × Engine X
  happen (message op t item a a') s = handle_good_ipc_message blank op t item a a' s
  happen (arrive acks) s = (pos 0, handle_acks blank acks s)
  happen (deliver window item x) s = (pos 0, handle_data window item x s)

  -- Events in a row: the state afterwards.
  unfoldable pub run : List (Event X) → Engine X → Engine X
  run [] s = s
  run (e ∷ events) s = run events (happen e s).1

  -- Events with their replies.
  unfoldable pub replies : List (Event X) → Engine X → List (Event X × ℤ)
  replies [] s = []
  replies (e ∷ events) s = (e, (happen e s).0) ∷ replies events (happen e s).1
