-- ===== src/Topics/Tests.antt =====
-- The types of some topics, and the theorems at them.
use tosdata_bridge.Prelude.{◌≡◌, refl}
use tosdata_bridge.Topics.Enum.{
  topic_value, element_type, static_type, volume, last, long_long_type,
}
use tosdata_bridge.Topics.Types.{topic-static_type}

volume-long_long : element_type (topic_value volume) ≡ long_long_type
unfolding element_type
volume-long_long = refl

topic-static_type_example : static_type (topic_value last) ≡ element_type (topic_value last)
topic-static_type_example = topic-static_type last
