-- ===== src/Client/Tests.antt =====
-- Runs of a client (src/client/client_admin.cpp) with scripted answers of the engine, and the
-- theorems at concrete inputs.
use Prim.Native.String.{String}
use tosdata_bridge.Prelude.{ℕ, ◌≡◌, ◌≤◌, refl, true, false, List, [], ◌∷◌, ◌++◌}
use tosdata_bridge.Prelude.Int.{ℤ, pos, negsuc}
use tosdata_bridge.Prelude.Text.{count_chars}
use tosdata_bridge.Topics.Enum.{Topic, topic_value, ElementType, element_type, last, bid}
use tosdata_bridge.Elements.Any.{AnyStream, Argument, typed, data_stream}
use tosdata_bridge.Elements.Push.{double_value}
use tosdata_bridge.Shared.State.{Buffer, create_buffer}
use tosdata_bridge.Elements.Tests.{small_values}
use tosdata_bridge.Block.Interface.{StreamClass}
use tosdata_bridge.Ipc.Args.{IsWord}
use tosdata_bridge.Ipc.Exchange.{max_str_sz}
use tosdata_bridge.Block.State.{set_block_size, add_item, add_topic}
use tosdata_bridge.Block.Limit.{create_empty_block}
use tosdata_bridge.Client.State.{TosdBlock, set_union, capture_buffer, Client, Outside}
use tosdata_bridge.Client.Valid.{
  is_valid_block_id, is_valid_block_size, is_valid_item_string, is_valid_item_string-IsWord,
}
use tosdata_bridge.Client.Add.{
  valid_items, tosdb_create_block, create_block, tosdb_add, add_to_block, add_new_topics,
  add_new_items, add_to_items, request_add,
}
use tosdata_bridge.Client.Remove.{tosdb_remove_item, release_streams, drop_item}
use tosdata_bridge.Client.Holders.{holds}
use tosdata_bridge.Client.Complete.{tosdb_add-holds}
use tosdata_bridge.Prelude.Action.{ok}
use tosdata_bridge.Prelude.Dict.{contains}
use tosdata_bridge.Topics.Map.{topic_eq, text_eq}
use tosdata_bridge.Block.Limit.{new_registry}
use tosdata_bridge.Client.Query.{tosdb_set_block_size}
use tosdata_bridge.Client.Extract.{read_buffers}
use tosdata_bridge.Client.Safety.{IsSafe}
use tosdata_bridge.Client.ValidSteps.{do_calls-IsSafe_valid}
use tosdata_bridge.Getters.Untouched.{AllValid}
use tosdata_bridge.Elements.Laws.{data_stream_laws}
use tosdata_bridge.Client.Reachable.{
  Call, reads_buffers, creates, adds, removes_item, sizes, new_client, do_call, do_calls,
}

abbrev Streams : Type 0
Streams = AnyStream ℕ ℕ ℕ

abbrev streams : StreamClass ElementType (Argument ℕ ℕ ℕ) ℕ ℕ Streams
streams = data_stream small_values

abbrev element_of : Topic → ElementType
element_of t = element_type (topic_value t)

-- A double and a stamp, whatever the type is.
abbrev cast : ElementType → ℕ × ℕ → Argument ℕ ℕ ℕ × ℕ
cast e x = (typed (double_value x.0), x.1)

-- The answers that are left, and the requests so far.
abbrev Script : Type 0
Script = List ℤ × List (ℕ × (Topic × String))

abbrev answer : Topic → String → ℕ → ℕ → Script → ℤ × Script
answer t item timeout op ([], log) = (pos 0, ([], log ++ (op, (t, item)) ∷ []))
answer t item timeout op (z ∷ zs, log) = (z, (zs, log ++ (op, (t, item)) ∷ []))

abbrev scripted : Outside Script
scripted = record { ask = answer; opens = λ t item w. true }

-- A buffer of one place, of which all has been read.
abbrev one_place : Buffer (ℕ × ℕ)
one_place = create_buffer (0, 0) 100 100 8

-- A block of two topics; an item of which the engine grants one stream and refuses the other, and
-- that is then removed.
abbrev half_granted : List (Call (ℕ × ℕ))
half_granted =
    creates true "A" 10 true 2000
    ∷ adds true "A" ("SPY" ∷ []) (last ∷ bid ∷ [])
    ∷ adds true "A" ("QQQ" ∷ []) []
    ∷ sizes "A" 20
    ∷ reads_buffers (λ t i. record { buffer = one_place; busy = false; got = λ n id. true })
    ∷ removes_item true "A" "QQQ"
    ∷ []

abbrev ran : Client Streams × Script
ran =
    do_calls streams element_of cast scripted half_granted
      (new_client, (pos 0 ∷ pos 0 ∷ pos 0 ∷ negsuc 21 ∷ [], []))

-- The stream that was refused is let go of.
refused_is_removed :
    ran.1.1
    ≡ (1, (last, "SPY"))
      ∷ (1, (bid, "SPY"))
      ∷ (1, (bid, "QQQ"))
      ∷ (1, (last, "QQQ"))
      ∷ (2, (bid, "QQQ"))
      ∷ (2, (last, "QQQ"))
      ∷ []
unfolding do_calls do_call tosdb_create_block create_block tosdb_add add_to_block add_new_topics
    add_new_items add_to_items request_add tosdb_remove_item release_streams drop_item
    is_valid_block_id is_valid_item_string is_valid_block_size create_empty_block capture_buffer
    add_item add_topic tosdb_set_block_size set_block_size read_buffers create_buffer
refused_is_removed = refl

is_valid_item_string-IsWord_example : IsWord "$SPX.X" × (count_chars "$SPX.X" ≤ max_str_sz)
unfolding is_valid_item_string
is_valid_item_string-IsWord_example = is_valid_item_string-IsWord "$SPX.X" refl

do_calls-IsSafe_valid_example :
    let r =
      do_calls streams element_of cast scripted half_granted
        (new_client, (pos 0 ∷ pos 0 ∷ pos 0 ∷ negsuc 21 ∷ [], [])) in
    IsSafe r.0 × AllValid (data_stream_laws small_values) element_of r.0
do_calls-IsSafe_valid_example =
    do_calls-IsSafe_valid (data_stream_laws small_values) element_of cast scripted half_granted
      (pos 0 ∷ pos 0 ∷ pos 0 ∷ negsuc 21 ∷ [], [])

-- A block of no streams.
abbrev empty_a : TosdBlock Streams
empty_a = record {
  timeout = 2000;
  block = record { block = []; block_sz = 10; item_names = []; topic_enums = []; datetime = true };
  item_precache = [];
  topic_precache = [];
}

abbrev client_a : Client Streams
client_a = record { dde_blocks = ("A", empty_a) ∷ []; buffers = []; registry = new_registry }

adds_to_a :
    (tosdb_add streams element_of scripted true "A" ("SPY" ∷ []) (last ∷ []) client_a ([], [])).0
    ≡ ok (pos 0)
unfolding tosdb_add add_to_block add_new_topics add_new_items add_to_items request_add
    is_valid_item_string capture_buffer add_item add_topic
adds_to_a = refl

spy_is_valid : contains "SPY" (set_union (set_union (valid_items ("SPY" ∷ [])) []) []) ≡ true
unfolding is_valid_item_string
spy_is_valid = refl

tosdb_add-holds_example :
    let r =
      tosdb_add streams element_of scripted true "A" ("SPY" ∷ []) (last ∷ []) client_a ([], []) in
    holds "A" last "SPY" r.1.0.buffers ≡ true
tosdb_add-holds_example =
    tosdb_add-holds streams element_of scripted "A" true ("SPY" ∷ []) (last ∷ []) client_a ([], [])
      empty_a refl (λ u j h. h) adds_to_a last "SPY" refl spy_is_valid
