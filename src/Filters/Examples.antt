-- ===== src/Filters/Examples.antt =====
-- Filters against a mirror node whose chain grows by a block with every second request.
use mpcq_json_rpc_relay.Prelude.{
  ℕ, suc, ◌+◌, ◌-◌, ◌/◌, ◌≤◌, ◌≡◌, refl, ap, true, Option, none, some, List, [], ◌∷◌, codes,
  text_eq, map, arith, if◌then◌else◌, ltb, lookup,
}
use mpcq_json_rpc_relay.Prelude.Results.{Result, ok}
use mpcq_json_rpc_relay.Formatters.Hex.{parse_hex, parse_from, digit_value}
use mpcq_json_rpc_relay.Common.{
  Thrown, text, MirrorNodeBlock, MirrorNodeLog, MirrorNode, Config, number_of, number_of_text,
  decimal_from, block_tag_is_latest_or_pending, tag_is,
}
use mpcq_json_rpc_relay.Common.Blocks.{
  get_historical_block_response, is_beyond_head, short_number, first_of, fetch_block, latest_block,
}
use mpcq_json_rpc_relay.Common.Ranges.{
  no_address, check_from_block, or_latest, bound_range, same_tag,
  validate_block_range_and_add_timestamp_to_params,
}
use mpcq_json_rpc_relay.Common.Logs.{
  to_log, or_empty, add_topics_to_params, log_results, get_logs_with_params, timestamps, get_logs,
}
use mpcq_json_rpc_relay.Filters.{
  log, new_block, Filter, Filters, hashes, queried_or, get_cache_key, unexpired,
  get_filter_from_cache, get_filter_changes,
}
use mpcq_json_rpc_relay.Filters.Chain.{blocks_from, Chain, hash_of}
use mpcq_json_rpc_relay.Filters.Polling.{
  IsAt, Poll, poll_all, seen_in, poll_all_lem, poll_all_complete,
}
use mpcq_json_rpc_relay.Filters.Answers.{get_filter_changes-empty}

abbrev block : ℕ → MirrorNodeBlock
block n = record {
  number = n;
  hash = n ∷ [];
  timestamp_from = codes "10.0";
  timestamp_to = codes "12.0";
}

abbrev the_log : MirrorNodeLog
the_log = record {
  address = codes "0x1";
  timestamp = codes "11.5";
  block_hash = codes "0xaa";
  block_number = 7;
  call_data = codes "0x";
  index = 0;
  topics = [];
  transaction_hash = codes "0xcc";
  transaction_index = 1;
}

abbrev after_number : ℕ → Option ℕ → Result Thrown (Option (List MirrorNodeBlock))
after_number t none = ok none
after_number t (some n) =
    ok (some (blocks_from block (suc n) (if ltb 2 (t / 2 - n) then 2 else t / 2 - n)))

abbrev node : MirrorNode
node = record {
  get_latest_block = λ t. ok (some (block (t / 2) ∷ []));
  get_block = λ t b. ok none;
  get_logs_by_address = λ t a params. ok none;
  get_logs = λ t params. ok (some (the_log ∷ []));
  get_blocks_after = λ t tag. after_number t (number_of tag);
  get_network_fees = λ t time. ok none;
  resolve_entity_type = λ t a. ok none;
}

abbrev config : Config
config = record {
  logs_block_range_limit = 3;
  max_block_range = 5;
  filter_api_enabled = true;
  filter_ttl = 1000;
  gas_price_percentage_buffer = 0;
}

abbrev chain : Chain node
chain = record {
  block_at = block;
  head = λ t. t / 2;
  page = 2;
  page_positive = omega arith;
  numbered = λ n. refl;
  latest = λ t. refl;
  after = λ t tag n e. ap (after_number t) e;
}

-- A filter of blocks that was made at block 3.
abbrev filter : Filter
filter = record { kind = new_block (codes "0x3"); last_queried = none }

abbrev filters : Filters
filters = (codes "filterId_a", (filter, 1000)) ∷ []

filters-IsAt : (later : ℕ) → later ≤ 1000 → IsAt filters later (codes "a") 3
unfolding get_filter_from_cache unexpired lookup get_cache_key text_eq queried_or number_of
    number_of_text parse_hex parse_from digit_value
filters-IsAt later soon = (none, codes "0x3", ground (arith, soon), refl)

abbrev polls : List Poll
polls =
    (record { now = 500; t = 8; t' = 9 })
    ∷ (record { now = 1200; t = 14; t' = 15 })
    ∷ (record { now = 2000; t = 14; t' = 15 })
    ∷ []

poll_all_lem_example :
    (s' : Filters) × (poll_all node config filters (codes "a") polls
      ≡ ok (s', map hash_of (blocks_from block 4 (seen_in node chain 3 polls))))
poll_all_lem_example =
    poll_all_lem node config refl chain filters 1000 3 3 (codes "a") polls filters-IsAt
      (omega arith)
      (
        omega arith,
        omega arith,
        refl,
        (omega arith, omega arith, refl, (omega arith, omega arith, refl, tt)),
      )

poll_all_complete_example :
    (s' : Filters) × (k : ℕ) × (4 ≤ 3 + k)
    × (poll_all node config filters (codes "a") polls
        ≡ ok (s', map hash_of (blocks_from block 4 k)))
poll_all_complete_example =
    poll_all_complete node config refl chain filters 1000 3 3 4 (codes "a") polls filters-IsAt
      (omega arith)
      (
        omega arith,
        omega arith,
        refl,
        (omega arith, omega arith, refl, (omega arith, omega arith, refl, tt)),
      )
      (omega arith, (omega arith, (omega arith, tt))) (omega arith)

get_filter_changes-empty_example :
    (s' : Filters) × (get_filter_changes node config filters 500 6 12 (codes "a")
      ≡ ok (s', hashes []))
    × ((later : ℕ) → later ≤ 1500 → IsAt s' later (codes "a") 6)
get_filter_changes-empty_example =
    get_filter_changes-empty node config refl chain filters 500 6 12 3 (codes "a")
      (filters-IsAt 500 (omega arith)) (omega arith) (omega arith)

there : get_filter_from_cache filters 500 (codes "a") ≡ some filter
unfolding get_filter_from_cache unexpired lookup get_cache_key text_eq
there = refl

-- A filter of logs up to the latest block, and one from a block that is not there.
abbrev latest_filter : Filter
latest_filter = record {
  kind = log (text (codes "latest")) (text (codes "latest")) no_address none;
  last_queried = none;
}

abbrev log_filters : Filters
log_filters = (codes "filterId_b", (latest_filter, 1000)) ∷ []

log_there : get_filter_from_cache log_filters 500 (codes "b") ≡ some latest_filter
unfolding get_filter_from_cache unexpired lookup get_cache_key text_eq
log_there = refl

log_found :
    get_logs node config 14 none (text (codes "latest")) (text (codes "latest")) no_address none
    ≡ ok (to_log the_log ∷ [])
unfolding get_logs timestamps validate_block_range_and_add_timestamp_to_params check_from_block
    block_tag_is_latest_or_pending tag_is text_eq or_latest get_historical_block_response
    is_beyond_head short_number number_of_text decimal_from fetch_block latest_block first_of
    bound_range same_tag add_topics_to_params get_logs_with_params log_results or_empty
log_found = refl
