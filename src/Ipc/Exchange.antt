-- ===== src/Ipc/Exchange.antt =====
-- A request of the client library (src/client/client_admin.cpp), through the pipe to the engine
-- (src/service/engine.cpp) and back.
use Prim.Native.String.{String}
use Prim.Native.String.{◌++◌ as str_append}
use mathlib.Core.Bool.{false≢true}
use tosdata_bridge.Prelude.{
  ℕ, ◌-◌, ◌<◌, ◌≤◌, ◌^◌, ◌≡◌, refl, sym, ap, subst, Bool, true, false, ◌||◌, Option, some, ltb,
  ◌==◌, arith, Bool-cases, inl, inr,
}
use tosdata_bridge.Prelude.Int.{ℤ}
use tosdata_bridge.Prelude.Action.{ok}
use tosdata_bridge.Prelude.Text.{
  to_string, to_string_ℤ, stol, FitsInt, stol-to_string_ℤ, count_chars, to_string-count,
}
use tosdata_bridge.Topics.Enum.{Topic, null_topic}
use tosdata_bridge.Topics.Text.{topic_text}
use tosdata_bridge.Topics.Map.{topic_eq, text_of, text_of-eq}
use tosdata_bridge.Engine.State.{Engine}
use tosdata_bridge.Engine.Streams.{
  StreamStatus, done, bad_topic, no_topic, no_item, dde_post, dde_no_ack, shem_buffer, status_code,
  Answers, add_stream, remove_stream, test_stream,
}
use tosdata_bridge.Engine.Handling.{handle_good_ipc_message, sig_add, sig_remove, sig_test}
use tosdata_bridge.Ipc.Args.{IsWord}
use tosdata_bridge.Ipc.Message.{
  max_message_sz, nuls, received, request_message, respond, call, request_stream_op,
}
use tosdata_bridge.Ipc.RoundTrip.{count-append, nuls-starts, parse-request}

-- `TOSDB_MAX_STR_SZ`
abbrev pub max_str_sz : ℕ
max_str_sz = 255

topic_text-count : (t : Topic) → ltb (count_chars (topic_text t)) 31 ≡ true
topic_text-count null_topic = refl
topic_text-count _ = refl

abbrev pub is_stream_op : ℕ → Bool
is_stream_op op = op == sig_add || op == sig_remove || op == sig_test

status_code-FitsInt : (e : StreamStatus) → FitsInt (status_code e)
status_code-FitsInt done = omega arith
status_code-FitsInt bad_topic = omega arith
status_code-FitsInt no_topic = omega arith
status_code-FitsInt no_item = omega arith
status_code-FitsInt dde_post = omega arith
status_code-FitsInt dde_no_ack = omega arith
status_code-FitsInt shem_buffer = omega arith

-- A message of an item of at most 255 characters fits.
pub request-fits :
    (op : ℕ) (t : Topic) (item : String) (timeout : ℕ)
    → is_stream_op op ≡ true
    → count_chars item ≤ max_str_sz
    → timeout < 2 ^ 32
    → count_chars (request_message op t item timeout) ≤ max_message_sz
unfolding request_message
request-fits op t item timeout h k l =
    let text : count_chars (text_of t) < 31 =
      subst (λ s. count_chars s < 31) (sym (text_of-eq t)) (ground (arith, topic_text-count t)) in
    let small : op < 10 = ground (arith, h) in
    let r3 = String.◌∷◌ " " (to_string timeout) in
    let r2 = String.◌∷◌ " " (str_append item r3) in
    let r1 = String.◌∷◌ " " (str_append (text_of t) r2) in
    omega (
      arith,
      text,
      count-append (to_string op) r1,
      count-append (text_of t) r2,
      count-append item r3,
      to_string-count 0 op small,
      to_string-count 9 timeout (omega (arith, l)),
    )

stol-received : (z : ℤ) → FitsInt z → stol (received (to_string_ℤ z)) ≡ some z
unfolding received
stol-received z h =
    let n = max_message_sz - count_chars (to_string_ℤ z) in
    stol-to_string_ℤ z (nuls n) h (nuls-starts n)

-- A request whose reply is a number.
request-reply :
    (pipe : String → Option String) (op : ℕ) (t : Topic) (item : String) (timeout : ℕ) (z : ℤ)
    → is_stream_op op ≡ true
    → count_chars (request_message op t item timeout) ≤ max_message_sz
    → pipe (request_message op t item timeout) ≡ some (to_string_ℤ z)
    → FitsInt z
    → request_stream_op true pipe t item timeout op ≡ ok z
unfolding request_stream_op call
request-reply pipe op t item timeout z h l e f = ground (arith, h, l, e, stol-received z f)

module _ {X : Type 0} (blank : X) (a a' : Answers) (s : Engine X) where
  -- The engine at the other end of the pipe.
  abbrev pub engine_pipe : String → Option String
  engine_pipe msg = some (to_string_ℤ (respond blank (received msg) a a' s).0)

  handle-FitsInt :
      (op : ℕ) (t : Topic) (item : String)
      → is_stream_op op ≡ true
      → FitsInt (handle_good_ipc_message blank op t item a a' s).0
  unfolding handle_good_ipc_message
  handle-FitsInt op t item h = elim (Bool-cases (op == sig_add)) [
    | inl e ↦ rw e (status_code-FitsInt (add_stream blank t item a s).0)
    | inr e ↦ elim (Bool-cases (op == sig_remove)) [
      | inl f ↦ rw (e, f) (status_code-FitsInt (remove_stream t item a s).0)
      | inr f ↦ elim (Bool-cases (op == sig_test)) [
        | inl g ↦ rw (e, f, g) (status_code-FitsInt (test_stream blank t item a a' s).0)
        | inr g ↦ absurd (false≢true (ground (arith, e, f, g, h)))
      ]
    ]
  ]

  -- A connected client that asks the engine to add, remove or test a stream is told what the
  -- engine's operation returned, and the engine has done that operation and nothing else. The topic
  -- is not the null topic; the item has no space, is not empty and has at most 255 characters.
  pub request-respond :
      (op : ℕ) (t : Topic) (item : String) (timeout : ℕ)
      → is_stream_op op ≡ true
      → timeout < 2 ^ 32
      → topic_eq.beq t null_topic ≡ false
      → IsWord item
      → count_chars item ≤ max_str_sz
      → let r = handle_good_ipc_message blank op t item a a' s in
        (request_stream_op true engine_pipe t item timeout op ≡ ok r.0)
        × (respond blank (received (request_message op t item timeout)) a a' s ≡ r)
  unfolding respond
  request-respond op t item timeout h l x w k =
      let r = handle_good_ipc_message blank op t item a a' s in
      let msg = request_message op t item timeout in
      let fits = request-fits op t item timeout h k l in
      let p = parse-request op t item timeout (ground (arith, h)) l (ground (arith, h)) x w fits in
      let e : respond blank (received msg) a a' s ≡ r = ground (arith, p) in
      (
        request-reply engine_pipe op t item timeout r.0 h fits
            (ap (λ (q : ℤ × Engine X). some (to_string_ℤ q.0)) e) (handle-FitsInt op t item h),
        e,
      )
