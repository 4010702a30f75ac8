-- ===== src/Block/Tests.antt =====
-- A block of two items and two topics, with the streams of the client library and the topics of the
-- program, and the theorems on it.
use Prim.Native.String.{String}
use tosdata_bridge.Prelude.{
  ℕ, ◌≡◌, refl, true, false, ◌&&◌, none, some, List, [], ◌∷◌, if◌then◌else◌,
}
use tosdata_bridge.Prelude.Int.{pos}
use tosdata_bridge.Prelude.Action.{ok, err}
use tosdata_bridge.Prelude.Dict.{lookup, contains, is_some}
use tosdata_bridge.Topics.Enum.{
  Topic, topic_value, ElementType, element_type, last, volume, description,
}
use tosdata_bridge.Topics.Text.{topic_text}
use tosdata_bridge.Topics.Map.{topic_eq, text_eq, topic_text-beq}
use tosdata_bridge.Elements.Push.{double_value, text_pointer}
use tosdata_bridge.Elements.Any.{AnyStream, Argument, typed, data_stream}
use tosdata_bridge.Elements.Laws.{data_stream_laws}
use tosdata_bridge.Elements.Tests.{small_values}
use tosdata_bridge.Block.Interface.{StreamClass, StreamLaws}
use tosdata_bridge.Block.State.{Block, block_error, wrap_push, new_block, insert_data, remove_item}
use tosdata_bridge.Block.Invariant.{IsValid, new_block-IsValid}
use tosdata_bridge.Block.Removal.{remove_item-IsValid}
use tosdata_bridge.Block.Insert.{stream_at, insert_data-stream_at}
use tosdata_bridge.Block.Frame.{raw_stream_ptr, has_item, has_topic, matrix_of_frame}
use tosdata_bridge.Block.Frames.{value, cell}
use tosdata_bridge.Block.Matrix.{matrix_of_frame-cell}
use tosdata_bridge.Block.Reachable.{
  Call, sizes, inserts, adds_item, adds_topic, removes_item, removes_topic, run,
  run-new_block-IsValid,
}
use tosdata_bridge.Block.Lookup.{raw_stream_ptr-has_item}
use tosdata_bridge.Block.Limit.{new_registry}
use tosdata_bridge.Block.Limits.{
  creates, creates_empty, destroys, limits, class_run, IsCounted, class_run-new_registry,
}

abbrev Streams : Type 0
Streams = AnyStream ℕ ℕ ℕ

abbrev streams : StreamClass ElementType (Argument ℕ ℕ ℕ) ℕ ℕ Streams
streams = data_stream small_values

laws : StreamLaws streams
laws = data_stream_laws small_values

abbrev element_of : Topic → ElementType
element_of t = element_type (topic_value t)

abbrev items : List String
items = "SPY" ∷ "QQQ" ∷ []

abbrev spy_qqq : Block String Topic Streams
spy_qqq = new_block streams element_of items (last ∷ volume ∷ []) 3 true

spy_qqq-IsValid : IsValid laws element_of spy_qqq
spy_qqq-IsValid = new_block-IsValid laws element_of items (last ∷ volume ∷ []) 3 true

spy_qqq-last : contains last spy_qqq.topic_enums ≡ true
unfolding new_block
spy_qqq-last = refl

spy_qqq-spy : contains "SPY" spy_qqq.item_names ≡ true
unfolding new_block
spy_qqq-spy = refl

abbrev calls : List (Call String Topic (Argument ℕ ℕ ℕ) ℕ)
calls =
    adds_topic description
    ∷ inserts true description "SPY" (typed (text_pointer (7 ∷ []))) 5
    ∷ inserts true last "IWM" (typed (double_value 4)) 5
    ∷ sizes 0
    ∷ removes_item "QQQ"
    ∷ removes_topic volume
    ∷ adds_item "IWM"
    ∷ []

run-new_block-IsValid_example : IsValid laws element_of (run streams element_of calls spy_qqq)
run-new_block-IsValid_example =
    run-new_block-IsValid laws element_of calls items (last ∷ volume ∷ []) 3 true

insert_data-stream_at_example :
    let b = (insert_data streams true last "SPY" (typed (double_value 4)) 5 spy_qqq) in
    (b.0 ≡ elim (stream_at "SPY" last spy_qqq) [
      | none ↦ err block_error
      | some s ↦ wrap_push (streams.push true (typed (double_value 4)) 5 s).0
    ])
    × ((j : String) (u : Topic)
        → stream_at j u b.1 ≡ (
            if text_eq.beq "SPY" j && topic_eq.beq last u
            then elim (stream_at "SPY" last spy_qqq) [
              | none ↦ none
              | some s ↦ some (streams.push true (typed (double_value 4)) 5 s).1
            ]
            else stream_at j u spy_qqq))
insert_data-stream_at_example =
    insert_data-stream_at streams true last "SPY" (typed (double_value 4)) 5 spy_qqq

remove_item-IsValid_example :
    ((remove_item "QQQ" spy_qqq).0 ≡ ok tt)
    × IsValid laws element_of (remove_item "QQQ" spy_qqq).1
    × ((j : String)
        → lookup j (remove_item "QQQ" spy_qqq).1.block
          ≡ (if text_eq.beq "QQQ" j then none else lookup j spy_qqq.block))
remove_item-IsValid_example = remove_item-IsValid laws element_of "QQQ" spy_qqq spy_qqq-IsValid

matrix_of_frame-cell_example :
    (m : List (String × List (String × ℕ))) × (matrix_of_frame streams topic_text spy_qqq ≡ ok m)
    × ((i : String) (t : Topic)
        → cell i (topic_text t) m ≡ elim (stream_at i t spy_qqq) [
          | none ↦ none
          | some s ↦ value (streams.get_leave_marker (pos 0) s)
        ])
matrix_of_frame-cell_example =
    matrix_of_frame-cell laws element_of topic_text topic_text-beq spy_qqq spy_qqq-IsValid

class_run-new_registry_example : IsCounted streams element_of (
    class_run streams element_of
      (creates items (last ∷ []) 3 true
        ∷ limits 1
        ∷ creates_empty 3 false
        ∷ destroys 0
        ∷ creates_empty 3 false
        ∷ [])
      (record { registry = new_registry; blocks = [] }))
class_run-new_registry_example = class_run-new_registry streams element_of (
    creates items (last ∷ []) 3 true
    ∷ limits 1
    ∷ creates_empty 3 false
    ∷ destroys 0
    ∷ creates_empty 3 false
    ∷ [])

raw_stream_ptr-has_item_example :
    (raw_stream_ptr "IWM" last spy_qqq
      ≡ elim (stream_at "IWM" last spy_qqq) [ none ↦ err block_error | some s ↦ ok s ])
    × (is_some (stream_at "IWM" last spy_qqq) ≡ (has_item "IWM" spy_qqq && has_topic last spy_qqq))
raw_stream_ptr-has_item_example =
    raw_stream_ptr-has_item laws element_of "IWM" last spy_qqq spy_qqq-IsValid
