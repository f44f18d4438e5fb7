-- ===== src/Filters/Answers.antt =====
-- Single polls: a filter of blocks with nothing new, and filters of logs.
use mpcq_json_rpc_relay.Prelude.{
  ℕ, zero, suc, ◌+◌, ◌≤◌, ◌<◌, ◌≡◌, refl, true, Option, none, some, List, [], Text, text_eq_refl,
  arith,
}
use mpcq_json_rpc_relay.Prelude.Results.{ok}
use mpcq_json_rpc_relay.Common.{
  Tag, text, block_number, MirrorNode, Config, number_of, number_of_text,
}
use mpcq_json_rpc_relay.Common.Blocks.{get_latest_block_number}
use mpcq_json_rpc_relay.Common.Logs.{Topic, Log, get_logs, or_empty}
use mpcq_json_rpc_relay.Common.Ranges.{Address}
use mpcq_json_rpc_relay.Common.RangeErrors.{number_of_text-number_to_0x}
use mpcq_json_rpc_relay.Filters.{
  log, new_block, Filter, Filters, hashes, logs, last_of, queried_or, latest_of_blocks,
  get_filter_from_cache, update_filter_cache, handle_new_block_filter_changes,
  handle_log_filter_changes, logs_of_filter, changes_of, get_filter_logs, get_filter_changes,
}
use mpcq_json_rpc_relay.Filters.Lifetime.{get-update_filter_cache, enabled_lem}
use mpcq_json_rpc_relay.Filters.Chain.{Chain, seen}
use mpcq_json_rpc_relay.Filters.Polling.{IsAt}

queried_or-suc : (n : ℕ) (start : Tag) → queried_or (some (suc n)) start ≡ block_number (suc n)
unfolding queried_or
queried_or-suc n start = refl

Position_of : (n : ℕ) (start : Tag) → 0 < n → number_of (queried_or (some n) start) ≡ some n
unfolding queried_or number_of
Position_of zero start h = absurd (omega (arith, h))
Position_of (suc n) start h = refl

module _ (M : MirrorNode) (C : Config) (enabled : C.filter_api_enabled ≡ true) where
  -- What a poll stores is found as long as it is kept.
  stored_lem :
      (s : Filters) (now later : ℕ) (filter_id : Text) (filter : Filter)
      → later ≤ now + C.filter_ttl
      → get_filter_from_cache (update_filter_cache C s now filter_id filter) later filter_id
        ≡ some filter
  stored_lem s now later filter_id filter soon =
      rw (get-update_filter_cache C s now later filter_id filter_id filter, text_eq_refl filter_id)
        (ground (arith, soon))

  -- A poll of a filter of blocks that finds no block after its position answers nothing, and the next
  -- poll asks from the block that is the latest at the second request: the blocks that come between
  -- the two requests are never answered.
  pub get_filter_changes-empty :
      (chain : Chain M) (s : Filters) (now t t' n : ℕ) (filter_id : Text)
      → IsAt s now filter_id n
      → chain.head t ≤ n
      → 0 < chain.head t'
      → (s' : Filters) × (get_filter_changes M C s now t t' filter_id ≡ ok (s', hashes []))
        × ((later : ℕ) → later ≤ now + C.filter_ttl → IsAt s' later filter_id (chain.head t'))
  unfolding get_filter_changes changes_of handle_new_block_filter_changes or_empty latest_of_blocks
      last_of get_latest_block_number
  get_filter_changes-empty chain s now t t' n filter_id (last_queried, start, there, at) low high =
      let filter : Filter = record {
        kind = new_block start;
        last_queried = some (chain.head t');
      } in
      let none_left : seen M chain t n ≡ 0 = ground (arith, chain.page_positive, low) in
      (
        update_filter_cache C s now filter_id filter,
        rw
            (
              enabled_lem M C enabled,
              there,
              chain.after t (queried_or last_queried (text start)) n at,
              none_left,
              latest_of_blocks,
              chain.latest t',
              number_of_text-number_to_0x,
              chain.numbered,
            )
            refl,
        (λ later soon. (
          some (chain.head t'),
          start,
          stored_lem s now later filter_id filter soon,
          Position_of (chain.head t') (text start) high,
        )),
      )

  -- The logs of a filter are those of its parameters, whatever was polled before, and asking for them
  -- keeps the filter as it is for the whole time again.
  pub get_filter_logs_lem :
      (s : Filters) (now t : ℕ) (filter_id : Text) (from_block to_block : Tag) (addr : Address)
      (topics : Option (List Topic)) (last_queried : Option ℕ) (found : List Log)
      → get_filter_from_cache s now filter_id
        ≡ some (record { kind = log from_block to_block addr topics; last_queried = last_queried })
      → get_logs M C t none from_block to_block addr topics ≡ ok found
      → (s' : Filters) × (get_filter_logs M C s now t filter_id ≡ ok (s', found))
        × ((later : ℕ)
            → later ≤ now + C.filter_ttl
            → get_filter_from_cache s' later filter_id ≡ get_filter_from_cache s now filter_id)
  unfolding get_filter_logs logs_of_filter
  get_filter_logs_lem s now t filter_id from_block to_block addr topics last_queried found there
        has =
      let filter : Filter = record {
        kind = log from_block to_block addr topics;
        last_queried = last_queried;
      } in
      (
        update_filter_cache C s now filter_id filter,
        rw (enabled_lem M C enabled, there, has) refl,
        (λ later soon. rw (stored_lem s now later filter_id filter soon, there) refl),
      )

  -- A poll of a filter of logs answers the logs from where it asks, and the next poll asks from the
  -- block after that of the last log.
  pub get_filter_changes-logs :
      (s : Filters) (now t t' n : ℕ) (filter_id : Text) (from_block to_block : Tag) (addr : Address)
      (topics : Option (List Topic)) (last_queried : Option ℕ) (found : List Log) (last : Log)
      → get_filter_from_cache s now filter_id
        ≡ some (record { kind = log from_block to_block addr topics; last_queried = last_queried })
      → get_logs M C t none (queried_or last_queried from_block) to_block addr topics ≡ ok found
      → last_of found ≡ some last
      → number_of_text last.block_number ≡ some n
      → (s' : Filters) × (get_filter_changes M C s now t t' filter_id ≡ ok (s', logs found))
        × ((later : ℕ)
            → later ≤ now + C.filter_ttl
            → (q : Option ℕ) × (get_filter_from_cache s' later filter_id
                ≡ some (record { kind = log from_block to_block addr topics; last_queried = q }))
              × (queried_or q from_block ≡ block_number (suc n)))
  unfolding get_filter_changes changes_of handle_log_filter_changes
  get_filter_changes-logs s now t t' n filter_id from_block to_block addr topics last_queried found
        last there has ends reads =
      let filter : Filter = record {
        kind = log from_block to_block addr topics;
        last_queried = some (suc n);
      } in
      (
        update_filter_cache C s now filter_id filter,
        rw (enabled_lem M C enabled, there, has, ends, reads) refl,
        (λ later soon. (
          some (suc n),
          stored_lem s now later filter_id filter soon,
          queried_or-suc n from_block,
        )),
      )
