-- ===== src/Common/Examples.antt =====
-- Requests against a small mirror node: two blocks, and one log in each.
use mathlib.Core.List.{Perm}
use mpcq_json_rpc_relay.Prelude.{
  ◌≡◌, refl, true, Option, none, some, List, [], ◌∷◌, Text, codes, text_eq, ◌==◌, if◌then◌else◌,
  starts_with,
}
use mpcq_json_rpc_relay.Prelude.Results.{Result, ok, err}
use mpcq_json_rpc_relay.Formatters.Hex.{
  number_to_0x, to_hex, hex_digits, digit, parse_hex, parse_from, digit_value,
}
use mpcq_json_rpc_relay.Formatters.Prefix.{
  trim_preceding_zeros, some_hex, all_hex, is_hex_digit, drop_zeros,
}
use mpcq_json_rpc_relay.Common.{
  number_of, number_of_text, is_falsy, block_tag_is_latest_or_pending, tag_is, range_too_large,
  Thrown, json_rpc, mirror_node, absent, text, MirrorNodeBlock, MirrorNodeLog, BlockId, by_number,
  by_hash, TimestampParam, gte, lte, one, any_of, LogParams, MirrorNode, Config, contract,
}
use mpcq_json_rpc_relay.Common.Blocks.{
  get_latest_block_number, get_historical_block_response, is_beyond_head, short_number, first_of,
  number_of_block, fetch_block, latest_block,
}
use mpcq_json_rpc_relay.Common.Ranges.{
  same_number, or_latest, bound_range, same_tag, check_range, nanoseconds, before_dot, after_dot,
  whole, weighted, is_single_address, no_address, address, check_from_block,
  validate_block_range_and_add_timestamp_to_params, validate_block_hash_and_add_timestamp_to_params,
}
use mpcq_json_rpc_relay.Common.Logs.{
  Topic, nil, value, nested, trim_all, topic_param, topics_from, text_geb, insert_log, sort_logs,
  or_empty, logs_of_addresses, timestamps, add_topics_to_params, get_logs_by_address, get_logs,
}
use mpcq_json_rpc_relay.Common.RangeBounds.{
  Accepted, validate_block_range_and_add_timestamp_to_params-Accepted,
}
use mpcq_json_rpc_relay.Common.Sorting.{AreAnswers, IsSorted, get_logs_by_address-IsSorted}
use mpcq_json_rpc_relay.Common.Topics.{AllStand, add_topics_to_params-AllStand}

abbrev five : MirrorNodeBlock
five = record {
  number = 5;
  hash = codes "0xaa";
  timestamp_from = codes "100.5";
  timestamp_to = codes "102.0";
}

abbrev nine : MirrorNodeBlock
nine = record {
  number = 9;
  hash = codes "0xbb";
  timestamp_from = codes "108.000000001";
  timestamp_to = codes "110.9";
}

abbrev log_at : Text → Text → MirrorNodeLog
log_at a time = record {
  address = a;
  timestamp = time;
  block_hash = codes "0xaa";
  block_number = 5;
  call_data = codes "0x";
  index = 0;
  topics = [];
  transaction_hash = codes "0xcc";
  transaction_index = 1;
}

abbrev block_of : BlockId → Result Thrown (Option MirrorNodeBlock)
block_of (by_number (some n)) =
    if n == 5 then ok (some five) else (if n == 9 then ok (some nine) else ok none)
block_of (by_number none) = err (mirror_node 400)
block_of (by_hash h) = err (mirror_node 404)

abbrev node : MirrorNode
node = record {
  get_latest_block = λ t. ok (some (nine ∷ []));
  get_block = λ t b. block_of b;
  get_logs_by_address = λ t a params.
      ok (some (log_at a (if text_eq a (codes "0x1") then codes "109.2" else codes "101.7") ∷ []));
  get_logs = λ t params. ok (some (log_at (codes "0x1") (codes "109.2") ∷ []));
  get_blocks_after = λ t tag. ok none;
  get_network_fees = λ t time. ok none;
  resolve_entity_type = λ t a. ok (some (contract none));
}

abbrev config : Config
config = record {
  logs_block_range_limit = 3;
  max_block_range = 5;
  filter_api_enabled = true;
  filter_ttl = 1000;
  gas_price_percentage_buffer = 0;
}

wide_range :
    validate_block_range_and_add_timestamp_to_params node config 0
      (text (codes "0x5"))
      (text (codes "0x9"))
      no_address
    ≡ err (json_rpc (range_too_large 3))
unfolding validate_block_range_and_add_timestamp_to_params check_from_block get_latest_block_number
    number_to_0x to_hex hex_digits digit number_of number_of_text parse_hex parse_from digit_value
    same_number is_falsy or_latest block_tag_is_latest_or_pending tag_is text_eq
    get_historical_block_response is_beyond_head short_number first_of number_of_block fetch_block
    bound_range same_tag check_range nanoseconds before_dot after_dot whole weighted
    is_single_address latest_block
wide_range = refl

one_address :
    validate_block_range_and_add_timestamp_to_params node config 0
      (text (codes "0x5"))
      (text (codes "safe"))
      (address (codes "0x1"))
    ≡ ok (some (gte (codes "100.5") ∷ lte (codes "110.9") ∷ []))
unfolding validate_block_range_and_add_timestamp_to_params check_from_block get_latest_block_number
    number_to_0x to_hex hex_digits digit number_of number_of_text parse_hex parse_from digit_value
    same_number is_falsy or_latest block_tag_is_latest_or_pending tag_is text_eq
    get_historical_block_response is_beyond_head short_number first_of number_of_block fetch_block
    bound_range same_tag check_range nanoseconds before_dot after_dot whole weighted
    is_single_address latest_block
one_address = refl

validate_block_range_and_add_timestamp_to_params-Accepted_example :
    Accepted node config 0
      (text (codes "0x5"))
      (text (codes "safe"))
      (address (codes "0x1"))
      (gte (codes "100.5") ∷ lte (codes "110.9") ∷ [])
validate_block_range_and_add_timestamp_to_params-Accepted_example =
    validate_block_range_and_add_timestamp_to_params-Accepted node config 0 (text (codes "0x5"))
      (text (codes "safe")) (address (codes "0x1")) (gte (codes "100.5") ∷ lte (codes "110.9") ∷ [])
      one_address

abbrev two_addresses : List Text
two_addresses = codes "0x1" ∷ codes "0x2" ∷ []

abbrev no_params : LogParams
no_params = record { timestamp = []; topics = [] }

get_logs_by_address-IsSorted_example :
    (answers : List MirrorNodeLog) × AreAnswers node config 0 two_addresses no_params answers
    × Perm
        (log_at (codes "0x2") (codes "101.7") ∷ log_at (codes "0x1") (codes "109.2") ∷ [])
        answers
    × IsSorted (log_at (codes "0x2") (codes "101.7") ∷ log_at (codes "0x1") (codes "109.2") ∷ [])
unfolding get_logs_by_address logs_of_addresses sort_logs insert_log text_geb text_eq or_empty
get_logs_by_address-IsSorted_example =
    get_logs_by_address-IsSorted node config 0 two_addresses no_params
      (log_at (codes "0x2") (codes "101.7") ∷ log_at (codes "0x1") (codes "109.2") ∷ []) refl

abbrev some_topics : List Topic
some_topics =
    nil ∷ value (some (codes "0x0a")) ∷ nested (some (codes "0x00") ∷ some (codes "b") ∷ []) ∷ []

add_topics_to_params-AllStand_example :
    AllStand 0 some_topics ((1, one (codes "a")) ∷ (2, any_of (codes "0" ∷ codes "b" ∷ [])) ∷ [])
    × (◌≡◌ {A = List TimestampParam} [] [])
unfolding add_topics_to_params topics_from topic_param trim_all trim_preceding_zeros starts_with
    some_hex all_hex is_hex_digit drop_zeros text_eq
add_topics_to_params-AllStand_example =
    add_topics_to_params-AllStand no_params
      (record {
        timestamp = [];
        topics = (1, one (codes "a")) ∷ (2, any_of (codes "0" ∷ codes "b" ∷ [])) ∷ [];
      })
      some_topics refl refl

unknown_hash : get_logs node config 0 (some (codes "0xdd")) absent absent no_address none ≡ ok []
unfolding get_logs timestamps validate_block_hash_and_add_timestamp_to_params text_eq
unknown_hash = refl
