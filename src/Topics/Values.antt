-- ===== src/Topics/Values.antt =====
-- The values of the topics (include/tos_databridge.h) and the maps that are built from them.
use tosdata_bridge.Prelude.{ℕ, ◌≡◌, refl, Option, some, List, find_first, ◌==◌}
use tosdata_bridge.Topics.Enum.{
  Topic, topic_value, null_topic, high52, low52, ask, askx, ask_size, ax, back_ex_move, back_vol,
  ba_size, beta, bid, bidx, bid_size, bx, call_volume_index, delta, description, div, div_freq, eps,
  exchange, expiration, extrinsic, ex_div_date, ex_move_diff, front_ex_move, front_vol, fx_pair,
  gamma, high, htb_etb, impl_vol, intrinsic, last, lastx, last_size, low, lx, mark, market_cap,
  mark_change, mark_percent_change, mrkt_mkr_move, mt_news, net_change, open_topic, open_int,
  option_volume_index, pe, percent_change, put_call_ratio, put_volume_index, rho, shares,
  strength_meter, strike, symbol, theta, vega, volume, vol_diff, vol_index, weighted_back_vol,
  yield, custom1, custom2, custom3, custom4, custom5, custom6, custom7, custom8, custom9, custom10,
  custom11, custom12, custom13, custom14, custom15, custom16, custom17, custom18, custom19,
}
use tosdata_bridge.Topics.Text.{all_topics}

-- The first topic with a value.
abbrev pub find_value : ℕ → List Topic → Option Topic
find_value n = find_first (λ t. topic_value t == n)

pub find_value-topic_value : (t : Topic) → find_value (topic_value t) all_topics ≡ some t
find_value-topic_value null_topic = refl
find_value-topic_value high52 = refl
find_value-topic_value low52 = refl
find_value-topic_value ask = refl
find_value-topic_value askx = refl
find_value-topic_value ask_size = refl
find_value-topic_value ax = refl
find_value-topic_value back_ex_move = refl
find_value-topic_value back_vol = refl
find_value-topic_value ba_size = refl
find_value-topic_value beta = refl
find_value-topic_value bid = refl
find_value-topic_value bidx = refl
find_value-topic_value bid_size = refl
find_value-topic_value bx = refl
find_value-topic_value call_volume_index = refl
find_value-topic_value delta = refl
find_value-topic_value description = refl
find_value-topic_value div = refl
find_value-topic_value div_freq = refl
find_value-topic_value eps = refl
find_value-topic_value exchange = refl
find_value-topic_value expiration = refl
find_value-topic_value extrinsic = refl
find_value-topic_value ex_div_date = refl
find_value-topic_value ex_move_diff = refl
find_value-topic_value front_ex_move = refl
find_value-topic_value front_vol = refl
find_value-topic_value fx_pair = refl
find_value-topic_value gamma = refl
find_value-topic_value high = refl
find_value-topic_value htb_etb = refl
find_value-topic_value impl_vol = refl
find_value-topic_value intrinsic = refl
find_value-topic_value last = refl
find_value-topic_value lastx = refl
find_value-topic_value last_size = refl
find_value-topic_value low = refl
find_value-topic_value lx = refl
find_value-topic_value mark = refl
find_value-topic_value market_cap = refl
find_value-topic_value mark_change = refl
find_value-topic_value mark_percent_change = refl
find_value-topic_value mrkt_mkr_move = refl
find_value-topic_value mt_news = refl
find_value-topic_value net_change = refl
find_value-topic_value open_topic = refl
find_value-topic_value open_int = refl
find_value-topic_value option_volume_index = refl
find_value-topic_value pe = refl
find_value-topic_value percent_change = refl
find_value-topic_value put_call_ratio = refl
find_value-topic_value put_volume_index = refl
find_value-topic_value rho = refl
find_value-topic_value shares = refl
find_value-topic_value strength_meter = refl
find_value-topic_value strike = refl
find_value-topic_value symbol = refl
find_value-topic_value theta = refl
find_value-topic_value vega = refl
find_value-topic_value volume = refl
find_value-topic_value vol_diff = refl
find_value-topic_value vol_index = refl
find_value-topic_value weighted_back_vol = refl
find_value-topic_value yield = refl
find_value-topic_value custom1 = refl
find_value-topic_value custom2 = refl
find_value-topic_value custom3 = refl
find_value-topic_value custom4 = refl
find_value-topic_value custom5 = refl
find_value-topic_value custom6 = refl
find_value-topic_value custom7 = refl
find_value-topic_value custom8 = refl
find_value-topic_value custom9 = refl
find_value-topic_value custom10 = refl
find_value-topic_value custom11 = refl
find_value-topic_value custom12 = refl
find_value-topic_value custom13 = refl
find_value-topic_value custom14 = refl
find_value-topic_value custom15 = refl
find_value-topic_value custom16 = refl
find_value-topic_value custom17 = refl
find_value-topic_value custom18 = refl
find_value-topic_value custom19 = refl
