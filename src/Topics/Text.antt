-- ===== src/Topics/Text.antt =====
-- src/topics.cpp: the texts of the topics, and the two-way map between the topics and their texts.
use Prim.Native.String.{String}
use tosdata_bridge.Prelude.{List, [], ◌∷◌}
use tosdata_bridge.Topics.Enum.{
  Topic, null_topic, high52, low52, ask, askx, ask_size, ax, back_ex_move, back_vol, ba_size, beta,
  bid, bidx, bid_size, bx, call_volume_index, delta, description, div, div_freq, eps, exchange,
  expiration, extrinsic, ex_div_date, ex_move_diff, front_ex_move, front_vol, fx_pair, gamma, high,
  htb_etb, impl_vol, intrinsic, last, lastx, last_size, low, lx, mark, market_cap, mark_change,
  mark_percent_change, mrkt_mkr_move, mt_news, net_change, open_topic, open_int,
  option_volume_index, pe, percent_change, put_call_ratio, put_volume_index, rho, shares,
  strength_meter, strike, symbol, theta, vega, volume, vol_diff, vol_index, weighted_back_vol,
  yield, custom1, custom2, custom3, custom4, custom5, custom6, custom7, custom8, custom9, custom10,
  custom11, custom12, custom13, custom14, custom15, custom16, custom17, custom18, custom19,
}

-- The entries, in the order of the source.
abbrev pub topic_text : Topic → String
topic_text null_topic = " "
topic_text high52 = "52HIGH"
topic_text low52 = "52LOW"
topic_text ask = "ASK"
topic_text askx = "ASKX"
topic_text ask_size = "ASK_SIZE"
topic_text ax = "AX"
topic_text back_ex_move = "BACK_EX_MOVE"
topic_text back_vol = "BACK_VOL"
topic_text ba_size = "BA_SIZE"
topic_text beta = "BETA"
topic_text bid = "BID"
topic_text bidx = "BIDX"
topic_text bid_size = "BID_SIZE"
topic_text bx = "BX"
topic_text call_volume_index = "CALL_VOLUME_INDEX"
topic_text delta = "DELTA"
topic_text description = "DESCRIPTION"
topic_text div = "DIV"
topic_text div_freq = "DIV_FREQ"
topic_text eps = "EPS"
topic_text exchange = "EXCHANGE"
topic_text expiration = "EXPIRATION"
topic_text extrinsic = "EXTRINSIC"
topic_text ex_div_date = "EX_DIV_DATE"
topic_text ex_move_diff = "EX_MOVE_DIFF"
topic_text front_ex_move = "FRONT_EX_MOVE"
topic_text front_vol = "FRONT_VOL"
topic_text fx_pair = "FX_PAIR"
topic_text gamma = "GAMMA"
topic_text high = "HIGH"
topic_text htb_etb = "HTB_ETB"
topic_text impl_vol = "IMPL_VOL"
topic_text intrinsic = "INTRINSIC"
topic_text last = "LAST"
topic_text lastx = "LASTX"
topic_text last_size = "LAST_SIZE"
topic_text low = "LOW"
topic_text lx = "LX"
topic_text mark = "MARK"
topic_text market_cap = "MARKET_CAP"
topic_text mark_change = "MARK_CHANGE"
topic_text mark_percent_change = "MARK_PERCENT_CHANGE"
topic_text mrkt_mkr_move = "MRKT_MKR_MOVE"
topic_text mt_news = "MT_NEWS"
topic_text net_change = "NET_CHANGE"
topic_text open_topic = "OPEN"
topic_text open_int = "OPEN_INT"
topic_text option_volume_index = "OPTION_VOLUME_INDEX"
topic_text pe = "PE"
topic_text percent_change = "PERCENT_CHANGE"
topic_text put_call_ratio = "PUT_CALL_RATIO"
topic_text put_volume_index = "PUT_VOLUME_INDEX"
topic_text rho = "RHO"
topic_text shares = "SHARES"
topic_text strength_meter = "STRENGTH_METER"
topic_text strike = "STRIKE"
topic_text symbol = "SYMBOL"
topic_text theta = "THETA"
topic_text vega = "VEGA"
topic_text volume = "VOLUME"
topic_text vol_diff = "VOL_DIFF"
topic_text vol_index = "VOL_INDEX"
topic_text weighted_back_vol = "WEIGHTED_BACK_VOL"
topic_text yield = "YIELD"
topic_text custom1 = "CUSTOM1"
topic_text custom2 = "CUSTOM2"
topic_text custom3 = "CUSTOM3"
topic_text custom4 = "CUSTOM4"
topic_text custom5 = "CUSTOM5"
topic_text custom6 = "CUSTOM6"
topic_text custom7 = "CUSTOM7"
topic_text custom8 = "CUSTOM8"
topic_text custom9 = "CUSTOM9"
topic_text custom10 = "CUSTOM10"
topic_text custom11 = "CUSTOM11"
topic_text custom12 = "CUSTOM12"
topic_text custom13 = "CUSTOM13"
topic_text custom14 = "CUSTOM14"
topic_text custom15 = "CUSTOM15"
topic_text custom16 = "CUSTOM16"
topic_text custom17 = "CUSTOM17"
topic_text custom18 = "CUSTOM18"
topic_text custom19 = "CUSTOM19"

abbrev pub all_topics : List Topic
all_topics =
    null_topic ∷ high52 ∷ low52 ∷ ask ∷ askx ∷ ask_size ∷ ax ∷ back_ex_move ∷ back_vol ∷ ba_size
    ∷ beta ∷ bid ∷ bidx ∷ bid_size ∷ bx ∷ call_volume_index ∷ delta ∷ description ∷ div ∷ div_freq
    ∷ eps ∷ exchange ∷ expiration ∷ extrinsic ∷ ex_div_date ∷ ex_move_diff ∷ front_ex_move
    ∷ front_vol ∷ fx_pair ∷ gamma ∷ high ∷ htb_etb ∷ impl_vol ∷ intrinsic ∷ last ∷ lastx ∷ last_size
    ∷ low ∷ lx ∷ mark ∷ market_cap ∷ mark_change ∷ mark_percent_change ∷ mrkt_mkr_move ∷ mt_news
    ∷ net_change ∷ open_topic ∷ open_int ∷ option_volume_index ∷ pe ∷ percent_change
    ∷ put_call_ratio ∷ put_volume_index ∷ rho ∷ shares ∷ strength_meter ∷ strike ∷ symbol ∷ theta
    ∷ vega ∷ volume ∷ vol_diff ∷ vol_index ∷ weighted_back_vol ∷ yield ∷ custom1 ∷ custom2 ∷ custom3
    ∷ custom4 ∷ custom5 ∷ custom6 ∷ custom7 ∷ custom8 ∷ custom9 ∷ custom10 ∷ custom11 ∷ custom12
    ∷ custom13 ∷ custom14 ∷ custom15 ∷ custom16 ∷ custom17 ∷ custom18 ∷ custom19 ∷ []
