-- ===== src/Engine/State.antt =====
-- src/service/engine.cpp: the engine's state, and what its message thread does with it.
use Prim.Native.String.{String}
use Prim.Native.String.{◌++◌ as str_append}
use tosdata_bridge.Prelude.{
  ℕ, ◌+◌, Bool, true, false, ◌&&◌, none, some, List, [], ◌∷◌, map, leb, ◌==◌, if◌then◌else◌,
}
use tosdata_bridge.Prelude.Dict.{nat_eq, lookup, set_at}
use tosdata_bridge.Prelude.Table.{pair_eq}
use tosdata_bridge.Prelude.Text.{to_string}
use tosdata_bridge.TwoWayMap.{TwoWayMap, insert_pair, empty_map, key_at}
use tosdata_bridge.Topics.Enum.{Topic, null_topic}
use tosdata_bridge.Topics.Map.{topic_eq, text_eq, topic_of}
use tosdata_bridge.Shared.State.{Buffer, route_to_buffer}
use tosdata_bridge.Signals.{SignalManager, new_signals}

-- `item_refcounts_ty`
abbrev pub ItemRefcounts : Type 0
ItemRefcounts = List (String × ℕ)

-- The globals. A window is its handle, 0 for none.
pub record Engine (X : Type 0) : Type 0 where
  pub topic_refcounts : List (Topic × ItemRefcounts)
  pub buffers : List ((String × Topic) × Buffer X)
  pub convos : TwoWayMap Topic ℕ
  pub ack_signals : SignalManager
  pub pause_flag : Bool
  pub shutdown_flag : Bool

abbrev pub new_engine : {X : Type 0} → Engine X
new_engine = record {
  topic_refcounts = [];
  buffers = [];
  convos = empty_map;
  ack_signals = new_signals;
  pause_flag = false;
  shutdown_flag = false;
}

-- `WM_DDE_ACK`, in its two forms: of an application and a topic, and of an item with its status.
pub data Ack : Type 0 where
  convo_ack : (app : List ℕ) → (topic : String) → (window : ℕ) → Ack
  item_ack : (status : ℕ) → (item : String) → (window : ℕ) → Ack

-- `str_to_lower`
abbrev pub lower : ℕ → ℕ
lower c = if leb 65 c && leb c 90 then c + 32 else c

abbrev pub equal_codes : List ℕ → List ℕ → Bool
equal_codes [] [] = true
equal_codes (a ∷ xs) (b ∷ ys) = a == b && equal_codes xs ys
equal_codes _ _ = false

-- Whether the application is `APP_NAME`, "TOS", whatever the case.
pub is_tos : List ℕ → Bool
is_tos app = equal_codes (map lower app) (map lower (84 ∷ 79 ∷ 83 ∷ []))

-- The identifier of a wait for an item.
unfoldable pub item_signal_id : ℕ → String → String
item_signal_id convo item = str_append (to_string convo) item

-- What `WndProc` signals at an acknowledgement.
pub signals_of : List Ack → List (String × Bool)
signals_of [] = []
signals_of (convo_ack app topic window ∷ acks) =
    if is_tos app then (topic, true) ∷ signals_of acks else signals_of acks
signals_of (item_ack status item window ∷ acks) =
    if status == 0
    then (item_signal_id window item, false) ∷ signals_of acks
    else if status == 0x8000
    then (item_signal_id window item, true) ∷ signals_of acks
    else signals_of acks

-- What it does to the conversations.
pub greet : List Ack → TwoWayMap Topic ℕ → TwoWayMap Topic ℕ
unfolding is_tos
greet [] m = m
greet (convo_ack app topic window ∷ acks) m =
    greet acks (if is_tos app then insert_pair (topic_of topic, window) m else m)
greet (item_ack status item window ∷ acks) m = greet acks m

module _ {X : Type 0} where
  -- `WM_DDE_DATA`: the value goes to the buffer of its stream, if it has one, unless the engine
  -- pauses. `x` is what the text of the message is read as, with its stamp.
  unfoldable pub handle_data : ℕ → String → X → Engine X → Engine X
  handle_data window item x s =
      if s.pause_flag
      then s
      else (let id : String × Topic = (item, key_at null_topic window s.convos) in
          elim (lookup id s.buffers) [
            | none ↦ s
            | some b ↦ record s { buffers = set_at id (route_to_buffer x b) s.buffers }
          ])
