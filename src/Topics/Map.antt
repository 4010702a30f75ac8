-- ===== src/Topics/Map.antt =====
-- src/topics.cpp: the two-way map between the topics and their texts.
use Prim.Native.String.{String}
use mathlib.Core.Bool.{false≢true}
use mathlib.Core.Option.{some-injective}
use text.Mathlib.Text
use text.Mathlib.TextEquality.{eq_iff}
use tosdata_bridge.Prelude.{
  ◌≡◌, refl, sym, ap, ◌∙◌, inl, inr, Bool-cases, arith, ◌==◌, ==_iff, some,
}
use tosdata_bridge.Prelude.Dict.{
  Eq, lookup, keys, tag, lookup-tag, distinct_lem, contains-find_first,
}
use tosdata_bridge.TwoWayMap.{TwoWayMap, insert_all, empty_map, value_at, key_at}
use tosdata_bridge.TwoWayMap.Laws.{IsTwoWay, values_of, insert_all-IsTwoWay}
use tosdata_bridge.Topics.Enum.{Topic, null_topic, topic_value}
use tosdata_bridge.Topics.Text.{topic_text, all_topics}
use tosdata_bridge.Topics.Values.{find_value, find_value-topic_value}

pub topic_value-injective : (t u : Topic) → topic_value t ≡ topic_value u → t ≡ u
topic_value-injective t u e =
    ground (
      arith,
      find_value-topic_value t,
      find_value-topic_value u,
      ap (λ n. find_value n all_topics) e,
    )

instance abbrev pub topic_eq : Eq Topic
topic_eq = record {
  beq = λ t u. topic_value t == topic_value u;
  beq_iff = λ t u. (
    λ h. topic_value-injective t u ((==_iff (topic_value t) (topic_value u)).0 h),
    λ e. (==_iff (topic_value t) (topic_value u)).1 (ap topic_value e),
  );
}

instance abbrev pub text_eq : Eq String
text_eq = record { beq = Text.◌==◌; beq_iff = eq_iff }

-- `TOS_Topics::map`, from the entries that `topics.cpp` inserts.
unfoldable pub topic_map : TwoWayMap Topic String
topic_map = insert_all (tag topic_text all_topics) empty_map

topic_map-entries :
    IsTwoWay topic_map
    × ((t : Topic) → lookup t topic_map.map1 ≡ lookup t (tag topic_text all_topics))
unfolding topic_map
topic_map-entries =
    insert_all-IsTwoWay (tag topic_text all_topics)
      (distinct_lem (keys (tag topic_text all_topics)) refl)
      (distinct_lem (values_of (tag topic_text all_topics)) refl)

topic_map-topic_text : (t : Topic) → lookup t topic_map.map1 ≡ some (topic_text t)
topic_map-topic_text t =
    topic_map-entries.1 t
    ∙ lookup-tag topic_text t all_topics (
        contains-find_first (λ u. topic_value u == topic_value t) t all_topics
          (find_value-topic_value t))

-- The map of the topics is two-way; it leads from every topic to its text, and from the text back
-- to the topic.
pub topic_map-IsTwoWay :
    IsTwoWay topic_map
    × ((t : Topic)
        → (lookup t topic_map.map1 ≡ some (topic_text t))
          × (lookup (topic_text t) topic_map.map2 ≡ some t))
topic_map-IsTwoWay = (
  topic_map-entries.0,
  λ t. (
    topic_map-topic_text t,
    (topic_map-entries.0.mirrors t (topic_text t)).0 (topic_map-topic_text t),
  ),
)

-- No two topics have one text, so the order by texts, in which blocks keep topics, tells any two
-- of them apart.
pub topic_text-injective : (t u : Topic) → topic_text t ≡ topic_text u → t ≡ u
topic_text-injective t u e =
    let p = (topic_map-IsTwoWay.1 t).1 in
    let q = (topic_map-IsTwoWay.1 u).1 in
    let r : some t ≡ some u = sym p ∙ ap (λ n. lookup n topic_map.map2) e ∙ q in
    some-injective t u r

-- The same, of the Boolean tests.
pub topic_text-beq : (t u : Topic) → text_eq.beq (topic_text t) (topic_text u) ≡ topic_eq.beq t u
topic_text-beq t u = elim (Bool-cases (topic_eq.beq t u)) [
  | inl h ↦
      (eq_iff (topic_text t) (topic_text u)).1 (ap topic_text ((topic_eq.beq_iff t u).0 h)) ∙ sym h
  | inr h ↦ elim (Bool-cases (text_eq.beq (topic_text t) (topic_text u))) [
    | inl g ↦
        let e = topic_text-injective t u ((eq_iff (topic_text t) (topic_text u)).0 g) in
        absurd (false≢true (sym h ∙ (topic_eq.beq_iff t u).1 e))
    | inr g ↦ g ∙ sym h
  ]
]

-- `TOS_Topics::map[...]` of a topic and of a text; a text of no topic gives the null topic.
unfoldable pub text_of : Topic → String
text_of t = value_at "" t topic_map

unfoldable pub topic_of : String → Topic
topic_of s = key_at null_topic s topic_map

pub text_of-eq : (t : Topic) → text_of t ≡ topic_text t
unfolding text_of value_at
text_of-eq t = ground (arith, topic_map-topic_text t)

pub topic_of-text_of : (t : Topic) → topic_of (text_of t) ≡ t
unfolding topic_of key_at
topic_of-text_of t = ground (arith, text_of-eq t, (topic_map-IsTwoWay.1 t).1)
