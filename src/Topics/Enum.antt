-- ===== src/Topics/Enum.antt =====
-- include/tos_databridge.h: the enumeration `TOPICS` with its values, which have the type of a topic's
-- values in their high bits, and what the class reads from them.
use tosdata_bridge.Prelude.{ℕ, ◌+◌, ◌*◌, ◌/◌, ◌%◌, ◌^◌, Bool, ◌==◌, if◌then◌else◌}

pub data Topic : Type 0 where
  null_topic high52 low52 ask askx ask_size ax back_ex_move back_vol ba_size beta bid : Topic
  bidx bid_size bx call_volume_index delta description div div_freq eps exchange : Topic
  expiration extrinsic ex_div_date ex_move_diff front_ex_move front_vol fx_pair gamma : Topic
  high htb_etb impl_vol intrinsic last lastx last_size low lx mark market_cap : Topic
  mark_change mark_percent_change mrkt_mkr_move mt_news net_change open_topic : Topic
  open_int option_volume_index pe percent_change put_call_ratio put_volume_index rho : Topic
  shares strength_meter strike symbol theta vega volume vol_diff vol_index : Topic
  weighted_back_vol yield custom1 custom2 custom3 custom4 custom5 custom6 custom7 : Topic
  custom8 custom9 custom10 custom11 custom12 custom13 custom14 custom15 custom16 : Topic
  custom17 custom18 custom19 : Topic

-- `TOSDB_INTGR_BIT`, `TOSDB_QUAD_BIT` and `TOSDB_STRING_BIT`, of eight bits.
abbrev pub intgr_bit : ℕ
intgr_bit = 2 ^ 7

abbrev pub quad_bit : ℕ
quad_bit = 2 ^ 6

abbrev pub string_bit : ℕ
string_bit = 2 ^ 5

-- `TOSDB_BIT_SHIFT_LEFT` for the 16 bits of `unsigned short`.
abbrev pub shift_left : ℕ → ℕ
shift_left bits = bits * 2 ^ 8

-- The values. The bits that are set by `|` are not set in what stands before them, so they are added.
abbrev pub topic_value : Topic → ℕ
topic_value null_topic = 0
topic_value high52 = 1
topic_value low52 = 2
topic_value ask = 6 + shift_left quad_bit
topic_value askx = 7 + shift_left string_bit
topic_value ask_size = 8 + shift_left intgr_bit
topic_value ax = 10 + shift_left string_bit
topic_value back_ex_move = 21 + shift_left quad_bit
topic_value back_vol = 22 + shift_left quad_bit
topic_value ba_size = 23 + shift_left string_bit
topic_value beta = 24 + shift_left quad_bit
topic_value bid = 25 + shift_left quad_bit
topic_value bidx = 26 + shift_left string_bit
topic_value bid_size = 27 + shift_left intgr_bit
topic_value bx = 28 + shift_left string_bit
topic_value call_volume_index = 39
topic_value delta = 70 + shift_left quad_bit
topic_value description = 72 + shift_left string_bit
topic_value div = 75
topic_value div_freq = 76 + shift_left string_bit
topic_value eps = 97
topic_value exchange = 98 + shift_left string_bit
topic_value expiration = 99 + shift_left string_bit
topic_value extrinsic = 100 + shift_left quad_bit
topic_value ex_div_date = 101 + shift_left string_bit
topic_value ex_move_diff = 102 + shift_left quad_bit
topic_value front_ex_move = 115 + shift_left quad_bit
topic_value front_vol = 116 + shift_left quad_bit
topic_value fx_pair = 120 + shift_left string_bit
topic_value gamma = 125 + shift_left quad_bit
topic_value high = 127 + shift_left quad_bit
topic_value htb_etb = 128 + shift_left string_bit
topic_value impl_vol = 138 + shift_left quad_bit
topic_value intrinsic = 139
topic_value last = 149 + shift_left quad_bit
topic_value lastx = 150 + shift_left string_bit
topic_value last_size = 151 + shift_left intgr_bit
topic_value low = 155 + shift_left quad_bit
topic_value lx = 156 + shift_left string_bit
topic_value mark = 169 + shift_left quad_bit
topic_value market_cap = 170 + shift_left string_bit
topic_value mark_change = 171 + shift_left quad_bit
topic_value mark_percent_change = 172 + shift_left quad_bit
topic_value mrkt_mkr_move = 175
topic_value mt_news = 176 + shift_left string_bit
topic_value net_change = 201 + shift_left quad_bit
topic_value open_topic = 203 + shift_left quad_bit
topic_value open_int = 204 + shift_left intgr_bit
topic_value option_volume_index = 205
topic_value pe = 213
topic_value percent_change = 214 + shift_left quad_bit
topic_value put_call_ratio = 218
topic_value put_volume_index = 219
topic_value rho = 237 + shift_left quad_bit
topic_value shares = 255 + shift_left intgr_bit + shift_left quad_bit
topic_value strength_meter = 258 + shift_left string_bit
topic_value strike = 259
topic_value symbol = 260 + shift_left string_bit
topic_value theta = 287 + shift_left quad_bit
topic_value vega = 316 + shift_left quad_bit
topic_value volume = 317 + shift_left intgr_bit + shift_left quad_bit
topic_value vol_diff = 318 + shift_left quad_bit
topic_value vol_index = 319 + shift_left quad_bit
topic_value weighted_back_vol = 331 + shift_left quad_bit
topic_value yield = 338
topic_value custom1 = 513 + shift_left string_bit
topic_value custom2 = 514 + shift_left string_bit
topic_value custom3 = 515 + shift_left string_bit
topic_value custom4 = 516 + shift_left string_bit
topic_value custom5 = 517 + shift_left string_bit
topic_value custom6 = 518 + shift_left string_bit
topic_value custom7 = 519 + shift_left string_bit
topic_value custom8 = 520 + shift_left string_bit
topic_value custom9 = 521 + shift_left string_bit
topic_value custom10 = 522 + shift_left string_bit
topic_value custom11 = 523 + shift_left string_bit
topic_value custom12 = 524 + shift_left string_bit
topic_value custom13 = 525 + shift_left string_bit
topic_value custom14 = 526 + shift_left string_bit
topic_value custom15 = 527 + shift_left string_bit
topic_value custom16 = 528 + shift_left string_bit
topic_value custom17 = 529 + shift_left string_bit
topic_value custom18 = 530 + shift_left string_bit
topic_value custom19 = 531 + shift_left string_bit

-- The types of elements that a stream of a block can have.
pub data ElementType : Type 0 where
  string_type long_type double_type long_long_type float_type : ElementType

-- `TypeBits` of a value: its high byte, and of that the highest three bits, which are what
-- `TOSDB_TOPIC_BITMASK` leaves.
unfoldable pub type_bits : ℕ → ℕ
type_bits topic = topic / 2 ^ 8 % 2 ^ 8 / 2 ^ 5 * 2 ^ 5

-- The switch of `_insert_topic`, and that of `TypeString`.
unfoldable pub element_type : ℕ → ElementType
unfolding type_bits
element_type topic =
    let bits = type_bits topic in
    if bits == string_bit
    then string_type
    else if bits == intgr_bit
    then long_type
    else if bits == quad_bit
    then double_type
    else if bits == intgr_bit + quad_bit
    then long_long_type
    else float_type

-- `TypeSize`, with `TOSDB_STR_DATA_SZ` and the sizes of the types on Windows.
unfoldable pub type_size : ℕ → ℕ
unfolding type_bits
type_size topic =
    let bits = type_bits topic in
    if bits == string_bit
    then 40
    else if bits == intgr_bit
    then 4
    else if bits == quad_bit
    then 8
    else if bits == intgr_bit + quad_bit
    then 8
    else 4

-- `(T)topic & bit`, for a bit that is shifted left.
abbrev pub has_bit : ℕ → ℕ → Bool
has_bit bit topic = topic / shift_left bit % 2 == 1

-- `Type<topic>::type`, at compile time.
unfoldable pub static_type : ℕ → ElementType
static_type topic =
    if has_bit string_bit topic
    then string_type
    else if has_bit intgr_bit topic
    then (if has_bit quad_bit topic then long_long_type else long_type)
    else if has_bit quad_bit topic
    then double_type
    else float_type
