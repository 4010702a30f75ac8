-- ===== src/Ipc/RoundTrip.antt =====
-- What the client library writes to the engine (src/client/client_admin.cpp), and what the engine
-- reads of it (src/service/engine.cpp).
use Prim.Native.String.{String}
use Prim.Native.String.{◌++◌ as str_append}
use text.Mathlib.TextLemmas.{nil-append, cons-append, append-nil, append_assoc}
use tosdata_bridge.Prelude.{
  ℕ, zero, suc, ◌+◌, ◌-◌, ◌<◌, ◌≤◌, ◌^◌, ◌/◌, ◌%◌, ◌≡◌, refl, sym, ap, subst, ◌∙◌, true, false,
  some, List, [], ◌∷◌, arith,
}
use tosdata_bridge.Prelude.Text.{
  to_string, to_string-append, stoul, stoul-to_string, count_chars, starts_with_digit, digits,
  digit_char, code-digit_char,
}
use tosdata_bridge.Topics.Enum.{Topic, null_topic}
use tosdata_bridge.Topics.Text.{topic_text}
use tosdata_bridge.Topics.Map.{topic_eq, text_of, text_of-eq, topic_of-text_of}
use tosdata_bridge.Ipc.Args.{IsWord, has_no_space, parse_args, parse_args-word, parse_args-last}
use tosdata_bridge.Ipc.Message.{
  max_message_sz, nuls, received, request_message, stream_message, is_control, parse_stream_args,
  parse_message_args, parse_ipc_message,
}

pub count-append : (s t : String) → count_chars (str_append s t) ≡ count_chars s + count_chars t
count-append String.[] t = ap count_chars (nil-append t) ∙ omega arith
count-append (String.◌∷◌ c s) t =
    ap count_chars (cons-append c s t) ∙ omega (arith, count-append s t)

count-nuls : (n : ℕ) → count_chars (nuls n) ≡ n
count-nuls zero = refl
count-nuls (suc n) = ap suc (count-nuls n)

-- What is received has full length.
pub count-received :
    (msg : String) → count_chars msg ≤ max_message_sz → count_chars (received msg) ≡ max_message_sz
unfolding received
count-received msg h =
    count-append msg (nuls (max_message_sz - count_chars msg))
    ∙ omega (arith, count-nuls (max_message_sz - count_chars msg))

pub nuls-starts : (n : ℕ) → starts_with_digit (nuls n) ≡ false
unfolding starts_with_digit
nuls-starts zero = refl
nuls-starts (suc n) = refl

nuls-has_no_space : (n : ℕ) → has_no_space (nuls n) ≡ true
nuls-has_no_space zero = refl
nuls-has_no_space (suc n) = nuls-has_no_space n

-- The text of a topic is a word, but for that of the null topic.
topic_text-IsWord : (t : Topic) → topic_eq.beq t null_topic ≡ false → IsWord (topic_text t)
topic_text-IsWord null_topic h = cc
topic_text-IsWord _ h = (refl, refl)

digits-IsWord : (f n : ℕ) (out : String) → n < f → has_no_space out ≡ true → IsWord (digits f n out)
unfolding digits
digits-IsWord zero n out h k = absurd (omega arith)
digits-IsWord (suc f) n out h k = ground (
  arith,
  code-digit_char n,
  code-digit_char (n % 10),
  digits-IsWord f (n / 10) (String.◌∷◌ (digit_char (n % 10)) out),
)

to_string-IsWord :
    (n : ℕ) (out : String) → has_no_space out ≡ true → IsWord (str_append (to_string n) out)
to_string-IsWord n out k =
    subst IsWord (sym (to_string-append n out)) (digits-IsWord (suc n) n out (omega arith) k)

module _ (op : ℕ) (t : Topic) (item : String) (timeout : ℕ) where
  -- The message and what is read behind it.
  request-append :
      (out : String)
      → str_append (request_message op t item timeout) out
        ≡ str_append (to_string op) (
            String.◌∷◌ " " (
              str_append (text_of t) (
                String.◌∷◌ " "
                  (str_append item (String.◌∷◌ " " (str_append (to_string timeout) out))))))
  unfolding request_message
  request-append out = simp (append_assoc, cons-append)

  abbrev args_of : String → List String
  args_of out = to_string op ∷ text_of t ∷ item ∷ str_append (to_string timeout) out ∷ []

  parse_args-request :
      (f : ℕ) (out : String)
      → topic_eq.beq t null_topic ≡ false
      → IsWord item
      → has_no_space out ≡ true
      → parse_args (suc (suc (suc (suc f)))) (str_append (request_message op t item timeout) out)
        ≡ some (args_of out)
  parse_args-request f out x w k =
      let tail = str_append (to_string timeout) out in
      let last = parse_args-last f tail (to_string-IsWord timeout out k) in
      let r3 = parse_args-word (suc f) item tail (tail ∷ []) w last in
      let text : IsWord (text_of t) = subst IsWord (sym (text_of-eq t)) (topic_text-IsWord t x) in
      let r2 =
        parse_args-word (suc (suc f)) (text_of t) (str_append item (String.◌∷◌ " " tail))
          (item ∷ tail ∷ []) text r3 in
      let number : IsWord (to_string op) =
        subst IsWord (append-nil (to_string op)) (to_string-IsWord op String.[] refl) in
      ap (parse_args (suc (suc (suc (suc f))))) (request-append out)
      ∙ parse_args-word (suc (suc (suc f))) (to_string op)
          (str_append (text_of t) (String.◌∷◌ " " (str_append item (String.◌∷◌ " " tail))))
          (text_of t ∷ item ∷ tail ∷ []) number r2

  parse_message_args-request :
      (out : String)
      → op < 2 ^ 32
      → timeout < 2 ^ 32
      → is_control op ≡ false
      → starts_with_digit out ≡ false
      → parse_message_args (args_of out) ≡ some (stream_message op t item timeout)
  unfolding parse_message_args parse_stream_args
  parse_message_args-request out h k c d =
      let p : stoul (to_string op) ≡ some op =
        ap stoul (sym (append-nil (to_string op)))
        ∙ stoul-to_string op String.[] h (nuls-starts 0) in
      ground (arith, p, c, stoul-to_string timeout out k d, topic_of-text_of t)

  -- What the client writes of an operation on a stream, the engine reads: the opcode, the topic, the
  -- item and the timeout. The topic is not the null topic, the item has no space and is not empty,
  -- and the message is at most 511 characters long.
  pub parse-request :
      op < 2 ^ 32
      → timeout < 2 ^ 32
      → is_control op ≡ false
      → topic_eq.beq t null_topic ≡ false
      → IsWord item
      → count_chars (request_message op t item timeout) ≤ max_message_sz
      → parse_ipc_message (received (request_message op t item timeout))
        ≡ some (stream_message op t item timeout)
  unfolding parse_ipc_message received
  parse-request h k c x w l =
      let msg = request_message op t item timeout in
      let out = nuls (max_message_sz - count_chars msg) in
      let n = count-received msg l in
      let e : parse_args (suc (count_chars (received msg))) (received msg) ≡ some (args_of out) =
        ap (λ f. parse_args (suc f) (received msg)) n
        ∙ parse_args-request 508 out x w (nuls-has_no_space (max_message_sz - count_chars msg)) in
      let p =
        parse_message_args-request out h k c (nuls-starts (max_message_sz - count_chars msg)) in
      ground (arith, n, e, p)
