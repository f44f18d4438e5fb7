-- ===== src/FeeHistory/Examples.antt =====
-- A mirror node whose latest block is 9, asked for the fees of a few blocks.
use mpcq_json_rpc_relay.Prelude.{
  ◌≡◌, ◌<◌, refl, true, false, none, some, List, [], ◌∷◌, Text, codes, text_eq, length, arith,
}
use mpcq_json_rpc_relay.Prelude.Results.{ok}
use mpcq_json_rpc_relay.Formatters.Hex.{
  number_to_0x, to_hex, hex_digits, digit, parse_hex, parse_from, digit_value,
}
use mpcq_json_rpc_relay.Common.{
  text, number_of_text, tag_is, block_tag_is_latest_or_pending, MirrorNode, MirrorNodeBlock, Config,
  block_latest,
}
use mpcq_json_rpc_relay.Common.Blocks.{translate_block_tag, get_latest_block_number}
use mpcq_json_rpc_relay.Common.Fees.{
  gas_price, get_gas_price_in_weibars, price_of_fees, ethereum_gas,
  add_percentage_buffer_to_gas_price,
}
use mpcq_json_rpc_relay.FeeHistory.{
  IFeeHistory, history, get_fee_history, newest_number, fee_history,
}
use mpcq_json_rpc_relay.FeeHistory.Positions.{IsFeeHistory, get_fee_history-IsFeeHistory}
use mpcq_json_rpc_relay.FeeHistory.Bounds.{AnswersAtMost, fee_history-AnswersAtMost}
use mpcq_json_rpc_relay.FeeHistory.Clipping.{one_block, fee_history-one_block, get_fee_history-rows}

abbrev nine : MirrorNodeBlock
nine = record {
  number = 9;
  hash = codes "0x99";
  timestamp_from = codes "109.0";
  timestamp_to = codes "110.9";
}

abbrev node : MirrorNode
node = record {
  get_latest_block = λ t. ok (some (nine ∷ []));
  get_block = λ t b. ok (some nine);
  get_logs_by_address = λ t a params. ok none;
  get_logs = λ t params. ok none;
  get_blocks_after = λ t tag. ok none;
  get_network_fees =
      λ t time. ok (some (record { transaction_type = codes "EthereumTransaction"; gas = 7 } ∷ []));
  resolve_entity_type = λ t a. ok none;
}

abbrev config : Config
config = record {
  logs_block_range_limit = 3;
  max_block_range = 5;
  filter_api_enabled = true;
  filter_ttl = 1000;
  gas_price_percentage_buffer = 0;
}

latest_nine : translate_block_tag node config 0 (text block_latest) ≡ ok (some 9)
unfolding translate_block_tag get_latest_block_number block_tag_is_latest_or_pending tag_is text_eq
    number_of_text number_to_0x to_hex hex_digits digit parse_hex parse_from digit_value
latest_nine = refl

newest_nine : newest_number node config 1 (some 9) (text block_latest) ≡ ok (some 9)
unfolding newest_number tag_is text_eq
newest_nine = refl

price : gas_price node config 2 ≡ ok (number_to_0x 70000000000)
unfolding gas_price get_gas_price_in_weibars price_of_fees ethereum_gas text_eq
    add_percentage_buffer_to_gas_price number_to_0x
price = refl

get_fee_history-IsFeeHistory_example :
    (h : IFeeHistory) × (get_fee_history node config 0 (some 3) (some 8) (some 9) none ≡ ok h)
    × IsFeeHistory node config h 0 3 8 9
get_fee_history-IsFeeHistory_example = get_fee_history-IsFeeHistory node config 0 2 8 9 none

fee_history-AnswersAtMost_example :
    AnswersAtMost 11 (fee_history node config false 10 0 (some 3) (text block_latest) none)
fee_history-AnswersAtMost_example =
    fee_history-AnswersAtMost node config false 10 0 (some 3) (text block_latest) none (omega arith)

fee_history-one_block_example :
    fee_history node config true 100 0 (some 10) (text block_latest) none
    ≡ ok (history (one_block 1 (number_to_0x 70000000000)))
fee_history-one_block_example =
    fee_history-one_block node config 100 0 (text block_latest) 10 9 9 (number_to_0x 70000000000)
      (omega arith) (omega arith) (omega arith) latest_nine newest_nine price

get_fee_history-rows_example :
    (h : IFeeHistory) × (rows : List (List Text)) × (ratios : List Text) × (get_fee_history node
        config 0
        (some 5)
        (some 2)
        (some 9)
        (some (25 ∷ []))
      ≡ ok h)
    × (h.reward ≡ some rows)
    × (h.gas_used_ratio ≡ some ratios)
    × (length ratios ≡ 3)
    × (length rows ≡ 5)
    × (length ratios < length rows)
get_fee_history-rows_example = get_fee_history-rows node config 0 5 2 9 25 [] (omega arith)
