-- ===== src/Ipc/Message.antt =====
-- src/ipc.cpp, src/service/engine.cpp and src/client/client_admin.cpp: the messages, as the client
-- library writes them and as the engine reads them, and the replies.
use Prim.Native.Char.{nul}
use Prim.Native.String.{String}
use Prim.Native.String.{◌++◌ as str_append}
use tosdata_bridge.Prelude.{
  ℕ, zero, suc, ◌-◌, Bool, true, false, ◌||◌, not, Option, none, some, List, [], ◌∷◌, ltb, ◌==◌,
  if◌then◌else◌,
}
use tosdata_bridge.Prelude.Int.{ℤ, negsuc}
use tosdata_bridge.Prelude.Action.{Result, ok, err}
use tosdata_bridge.Prelude.Text.{to_string, to_string_ℤ, stoul, stol, count_chars}
use tosdata_bridge.Topics.Enum.{Topic}
use tosdata_bridge.Topics.Map.{text_of, topic_of}
use tosdata_bridge.Ipc.Args.{parse_args}
use tosdata_bridge.Engine.State.{Engine}
use tosdata_bridge.Engine.Streams.{Answers}
use tosdata_bridge.Engine.Handling.{
  sig_add, sig_remove, sig_test, sig_pause, sig_continue, sig_stop, sig_dump, error_ipc_msg,
  handle_good_ipc_message, control,
}

-- `IPCBase::MAX_MESSAGE_SZ`
abbrev pub max_message_sz : ℕ
max_message_sz = 511

-- `std::invalid_argument` of `call` and `send`.
pub data IpcError : Type 0 where
  message_too_long : IpcError

abbrev pub nuls : ℕ → String
nuls zero = String.[]
nuls (suc n) = String.◌∷◌ nul (nuls n)

-- What `recv`, and `call`, make of the characters that come through the pipe: they are read into a
-- text of full length, whose other characters are 0.
unfoldable pub received : String → String
received msg = str_append msg (nuls (max_message_sz - count_chars msg))

-- `_requestStreamOP` writes this.
unfoldable pub request_message : ℕ → Topic → String → ℕ → String
request_message op t item timeout = str_append (to_string op) (
    String.◌∷◌ " " (
      str_append (text_of t)
        (String.◌∷◌ " " (str_append item (String.◌∷◌ " " (to_string timeout))))))

-- What `ParseIPCMessage` gets from a message.
pub data Message : Type 0 where
  control_message : (op : ℕ) → Message
  stream_message : (op : ℕ) → (t : Topic) → (item : String) → (timeout : ℕ) → Message

abbrev pub is_control : ℕ → Bool
is_control op = op == sig_pause || op == sig_continue || op == sig_stop || op == sig_dump

-- Its arguments behind the opcode; there have to be three.
unfoldable pub parse_stream_args : ℕ → List String → Option Message
parse_stream_args op (topic ∷ item ∷ timeout ∷ []) = elim (stoul timeout) [
  | none ↦ none
  | some n ↦ some (stream_message op (topic_of topic) item n)
]
parse_stream_args op _ = none

unfoldable pub parse_message_args : List String → Option Message
parse_message_args [] = none
parse_message_args (arg ∷ args) = elim (stoul arg) [
  | none ↦ none
  | some op ↦ if is_control op then some (control_message op) else parse_stream_args op args
]

-- `ParseIPCMessage`; `none` is false.
unfoldable pub parse_ipc_message : String → Option Message
parse_ipc_message msg =
    if ltb max_message_sz (count_chars msg)
    then none
    else elim (parse_args (suc (count_chars msg)) msg) [
      | none ↦ none
      | some args ↦ parse_message_args args
    ]

module _ {X : Type 0} (blank : X) where
  -- A message that the engine has received: the reply, and the engine afterwards. What the topic,
  -- the item and the timeout were before, `HandleGoodIPCMessage` does not use for a control message.
  unfoldable pub respond : String → Answers → Answers → Engine X → ℤ × Engine X
  respond msg a a' s = elim (parse_ipc_message msg) [
    | none ↦ (error_ipc_msg, s)
    | some m ↦ elim m [
      | control_message op ↦ control blank op s
      | stream_message op t item timeout ↦ handle_good_ipc_message blank op t item a a' s
    ]
  ]

-- `IPCMaster::call`: `pipe` is the other side, and `none` that `CallNamedPipe` fails.
unfoldable pub call : (String → Option String) → String → Result IpcError (Option String)
call pipe msg =
    if ltb max_message_sz (count_chars msg)
    then err message_too_long
    else ok (elim (pipe msg) [ none ↦ none | some reply ↦ some (received reply) ])

-- `TOSDB_ERROR_BAD_SIG`, `TOSDB_ERROR_NOT_CONNECTED` and `TOSDB_ERROR_IPC`
abbrev pub error_bad_sig : ℤ
error_bad_sig = negsuc 10

abbrev pub error_not_connected : ℤ
error_not_connected = negsuc 2

abbrev pub error_ipc : ℤ
error_ipc = negsuc 11

-- `_requestStreamOP`; `connected` is what `_connected` says.
unfoldable pub request_stream_op :
    Bool → (String → Option String) → Topic → String → ℕ → ℕ → Result IpcError ℤ
request_stream_op connected pipe t item timeout op =
    if not (op == sig_add || op == sig_remove || op == sig_test)
    then ok error_bad_sig
    else if not connected
    then ok error_not_connected
    else elim (call pipe (request_message op t item timeout)) [
      | err e ↦ err e
      | ok none ↦ ok error_ipc
      | ok (some reply) ↦ elim (stol reply) [ none ↦ ok error_ipc | some r ↦ ok r ]
    ]

-- What `RunMainCommLoop` meets in a round: the slave fails, a message cannot be received, or one is,
-- with the answers to the operations that it asks for.
pub data Round : Type 0 where
  no_master : Round
  no_message : Round
  receives : (msg : String) → (a a' : Answers) → Round

module _ {X : Type 0} (blank : X) where
  -- `RunMainCommLoop`, over the rounds that come: the replies that it sends, what it returns, and
  -- the engine afterwards. `none` says that it still waits.
  pub comm_loop : List Round → Engine X → List String × (Option Bool × Engine X)
  comm_loop [] s = ([], (if s.shutdown_flag then some true else none, s))
  comm_loop (r ∷ rounds) s = if s.shutdown_flag then ([], (some true, s)) else elim r [
    | no_master ↦ ([], (some false, record s { shutdown_flag = true }))
    | no_message ↦ comm_loop rounds s
    | receives msg a a' ↦
        let (resp, s1) = respond blank (received msg) a a' s in
        let (sent, end) = comm_loop rounds s1 in (to_string_ℤ resp ∷ sent, end)
  ]
