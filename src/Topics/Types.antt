-- ===== src/Topics/Types.antt =====
-- The types of the topics: what the values say at compile time and at run time.
use tosdata_bridge.Prelude.{
  ℕ, ◌+◌, ◌*◌, ◌/◌, ◌%◌, ◌^◌, ◌≡◌, refl, ◌↔◌, ◌<◌, Bool, true, false, not, ◌&&◌, ◌||◌, arith, ◌==◌,
  ltb, all-find_first,
}
use tosdata_bridge.Topics.Text.{all_topics}
use tosdata_bridge.Topics.Values.{find_value-topic_value}
use tosdata_bridge.Topics.Enum.{
  Topic, topic_value, has_bit, string_bit, intgr_bit, quad_bit, type_bits, element_type,
  static_type,
}

-- The three type bits of a value.
high_bits :
    (t : ℕ)
    → t < 2 ^ 16
    → type_bits t ≡ t / 2 ^ 15 % 2 * 2 ^ 7 + t / 2 ^ 14 % 2 * 2 ^ 6 + t / 2 ^ 13 % 2 * 2 ^ 5
unfolding type_bits
high_bits t h = omega arith

-- The compile-time type and the run-time type of a value are the same exactly if the string bit is
-- not set together with another type bit.
static_type_iff :
    (t : ℕ)
    → t < 2 ^ 16
    → (static_type t ≡ element_type t)
      ↔ ((has_bit string_bit t && (has_bit intgr_bit t || has_bit quad_bit t)) ≡ false)
unfolding static_type element_type
static_type_iff t h = ground (arith, high_bits t h)

-- The values of the topics fit 16 bits, and none has the string bit with another type bit.
abbrev is_regular : Topic → Bool
is_regular t =
    let n = topic_value t in
    ltb n (2 ^ 16) && not (has_bit string_bit n && (has_bit intgr_bit n || has_bit quad_bit n))

topic-is_regular : (t : Topic) → is_regular t ≡ true
topic-is_regular t =
    all-find_first (λ u. topic_value u == topic_value t) is_regular t all_topics refl
      (find_value-topic_value t)

-- For every topic, the type at compile time is the type of the stream that a block makes.
pub topic-static_type : (t : Topic) → static_type (topic_value t) ≡ element_type (topic_value t)
topic-static_type t =
    let n = topic_value t in
    let h : n < 2 ^ 16 = ground (arith, topic-is_regular t) in
    (static_type_iff n h).1 (ground (arith, topic-is_regular t))
