-- ===== src/Filters.antt =====
-- packages/relay/src/lib/services/ethService/ethFilterService/FilterService.ts: filters of logs and of
-- blocks in a cache whose entries expire. That the cache may drop an entry for want of room is not
-- modelled. The requests to the mirror node are numbered as in Common.
pub mod Chain
pub mod Polling
pub mod Lifetime
pub mod Answers
mod Examples
use mpcq_json_rpc_relay.Prelude.{
  ℕ, zero, suc, ◌+◌, Bool, true, false, Option, none, some, List, [], ◌∷◌, ◌++◌, Text, codes,
  lookup, insert, remove, text_eq, if◌then◌else◌, not, leb, map,
}
use mpcq_json_rpc_relay.Prelude.Results.{Result, ok, err, ◌>>=◌, ◌>>◌, throw_if}
use mpcq_json_rpc_relay.Formatters.Prefix.{to_hash32}
use mpcq_json_rpc_relay.Common.{
  JsonRpcError, unsupported_method, filter_not_found, Thrown, json_rpc, Tag, absent, text,
  block_number, MirrorNodeBlock, MirrorNode, Config, number_of_text, tag_is, block_latest,
  generic_error_handler,
}
use mpcq_json_rpc_relay.Common.Blocks.{get_latest_block_number}
use mpcq_json_rpc_relay.Common.Ranges.{Address, validate_block_range}
use mpcq_json_rpc_relay.Common.Logs.{Topic, Log, get_logs, or_empty}

-- The type of a filter with its parameters.
pub data FilterKind : Type 0 where
  log : Tag → Tag → Address → Option (List Topic) → FilterKind
  new_block : Text → FilterKind
  other_type : FilterKind

-- `last_queried` is `none` when it is null or `NaN`, which are falsy alike.
pub record Filter : Type 0 where
  pub kind : FilterKind
  pub last_queried : Option ℕ

-- The cache: the filter of a key, and the time in milliseconds until which it is kept.
abbrev pub Filters : Type 0
Filters = List (Text × (Filter × ℕ))

unfoldable pub get_cache_key : Text → Text
get_cache_key filter_id = codes "filterId_" ++ filter_id

-- What the cache gives of an entry at a time.
unfoldable pub unexpired : ℕ → Option (Filter × ℕ) → Option Filter
unexpired now none = none
unexpired now (some (filter, until)) = if leb now until then some filter else none

unfoldable pub get_filter_from_cache : Filters → ℕ → Text → Option Filter
unfolding lookup get_cache_key unexpired
get_filter_from_cache s now filter_id = unexpired now (lookup (get_cache_key filter_id) s)

unfoldable pub update_filter_cache : Config → Filters → ℕ → Text → Filter → Filters
unfolding insert get_cache_key
update_filter_cache C s now filter_id filter =
    insert (get_cache_key filter_id) (filter, now + C.filter_ttl) s

-- `filter_id` is the random number that `generateRandomHex` gives.
unfoldable pub create_filter : Config → Filters → ℕ → Text → FilterKind → Filters × Text
unfolding update_filter_cache
create_filter C s now filter_id kind =
    (update_filter_cache C s now filter_id (record { kind = kind; last_queried = none }), filter_id)

abbrev or_latest_tag : Option Tag → Tag
or_latest_tag none = text block_latest
or_latest_tag (some tag) = tag

-- The answers of `getFilterChanges`.
pub data Changes : Type 0 where
  hashes : List Text → Changes
  logs : List Log → Changes

-- The last of a list.
unfoldable pub last_of {ℓ} : {A : Type ℓ} → List A → Option A
last_of [] = none
last_of (x ∷ []) = some x
last_of (x ∷ y ∷ xs) = last_of (y ∷ xs)

-- `filter.lastQueried || start`.
unfoldable pub queried_or : Option ℕ → Tag → Tag
queried_or none start = start
queried_or (some zero) start = start
queried_or (some (suc n)) start = block_number (suc n)

abbrev plus_one : Option ℕ → Option ℕ
plus_one none = none
plus_one (some n) = some (suc n)

module _ (M : MirrorNode) (C : Config) where
  unfoldable pub require_filters_enabled : Result Thrown (Unit {0})
  require_filters_enabled = throw_if (not C.filter_api_enabled) (json_rpc unsupported_method)

  -- The body of `newFilter`; `none` is undefined. The requests `t` to `t + 5`.
  unfoldable pub make_filter :
      Filters
      → ℕ
      → ℕ
      → Text
      → Option Tag
      → Option Tag
      → Address
      → Option (List Topic)
      → Result Thrown (Filters × Text)
  unfolding require_filters_enabled create_filter tag_is
  make_filter s now t filter_id from_param to_param addr topics =
      let from_block = or_latest_tag from_param in
      let to_block = or_latest_tag to_param in
      require_filters_enabled
      >> (validate_block_range M C t from_block to_block >> (do
        start ←
            (if tag_is from_block block_latest
              then (do latest ← get_latest_block_number M C (t + 5); ok (text latest))
              else ok from_block)
        ok (create_filter C s now filter_id (log start to_block addr topics))))

  unfoldable pub new_filter :
      Filters
      → ℕ
      → ℕ
      → Text
      → Option Tag
      → Option Tag
      → Address
      → Option (List Topic)
      → Result Thrown (Filters × Text)
  unfolding make_filter generic_error_handler
  new_filter s now t filter_id from_param to_param addr topics =
      elim (make_filter s now t filter_id from_param to_param addr topics) [
        | ok answer ↦ ok answer
        | err e ↦ err (generic_error_handler e)
      ]

  unfoldable pub new_block_filter : Filters → ℕ → ℕ → Text → Result Thrown (Filters × Text)
  unfolding require_filters_enabled create_filter
  new_block_filter s now t filter_id = require_filters_enabled >> (do
    latest ← get_latest_block_number M C t
    ok (create_filter C s now filter_id (new_block latest)))

  unfoldable pub uninstall_filter : Filters → ℕ → Text → Result Thrown (Filters × Bool)
  unfolding require_filters_enabled get_filter_from_cache get_cache_key remove
  uninstall_filter s now filter_id =
      require_filters_enabled >> elim (get_filter_from_cache s now filter_id) [
        | none ↦ ok (s, false)
        | some filter ↦ ok (remove (get_cache_key filter_id) s, true)
      ]

  -- The part of `getFilterLogs` with the filter that was found.
  unfoldable pub logs_of_filter :
      Filters → ℕ → ℕ → Text → Filter → Result Thrown (Filters × List Log)
  unfolding update_filter_cache
  logs_of_filter s now t filter_id filter = elim filter.kind [
    | log from_block to_block addr topics ↦ do
      found ← get_logs M C t none from_block to_block addr topics
      ok (update_filter_cache C s now filter_id filter, found)
    | new_block latest ↦ err (json_rpc filter_not_found)
    | other_type ↦ err (json_rpc filter_not_found)
  ]

  -- The time of the update is taken to be that of the call.
  unfoldable pub get_filter_logs : Filters → ℕ → ℕ → Text → Result Thrown (Filters × List Log)
  unfolding require_filters_enabled logs_of_filter get_filter_from_cache
  get_filter_logs s now t filter_id =
      require_filters_enabled >> elim (get_filter_from_cache s now filter_id) [
        | none ↦ err (json_rpc filter_not_found)
        | some filter ↦ logs_of_filter s now t filter_id filter
      ]

  -- The requests from `t` on, and `t'` for the number of the latest block.
  unfoldable pub handle_log_filter_changes :
      ℕ
      → ℕ
      → Option ℕ
      → Tag
      → Tag
      → Address
      → Option (List Topic)
      → Result Thrown (List Log × Option ℕ)
  unfolding queried_or last_of number_of_text
  handle_log_filter_changes t t' last_queried from_block to_block addr topics = do
    result ← get_logs M C t none (queried_or last_queried from_block) to_block addr topics
    latest ← elim (last_of result) [
      | none ↦ get_latest_block_number M C t'
      | some l ↦ ok l.block_number
    ]
    ok (result, plus_one (number_of_text latest))

  -- `Number` of the last block's number, or else of the latest block's.
  unfoldable pub latest_of_blocks : ℕ → List MirrorNodeBlock → Result Thrown (Option ℕ)
  unfolding last_of number_of_text
  latest_of_blocks t' blocks = elim (last_of blocks) [
    | none ↦ do latest ← get_latest_block_number M C t'; ok (number_of_text latest)
    | some block ↦ ok (some block.number)
  ]

  unfoldable pub handle_new_block_filter_changes :
      ℕ → ℕ → Option ℕ → Text → Result Thrown (List Text × Option ℕ)
  unfolding queried_or latest_of_blocks or_empty to_hash32
  handle_new_block_filter_changes t t' last_queried block_at_creation = do
    response ← M.get_blocks_after t (queried_or last_queried (text block_at_creation))
    latest ← latest_of_blocks t' (or_empty response)
    ok (map (λ (b : MirrorNodeBlock). to_hash32 b.hash) (or_empty response), latest)

  -- The `switch` on the type.
  unfoldable pub changes_of : ℕ → ℕ → Filter → Result Thrown (Changes × Option ℕ)
  unfolding handle_log_filter_changes handle_new_block_filter_changes
  changes_of t t' filter = elim filter.kind [
    | log from_block to_block addr topics ↦ do
      found ← handle_log_filter_changes t t' filter.last_queried from_block to_block addr topics
      ok (logs found.0, found.1)
    | new_block block_at_creation ↦ do
      found ← handle_new_block_filter_changes t t' filter.last_queried block_at_creation
      ok (hashes found.0, found.1)
    | other_type ↦ err (json_rpc unsupported_method)
  ]

  unfoldable pub get_filter_changes : Filters → ℕ → ℕ → ℕ → Text → Result Thrown (Filters × Changes)
  unfolding require_filters_enabled get_filter_from_cache changes_of update_filter_cache
  get_filter_changes s now t t' filter_id =
      require_filters_enabled >> elim (get_filter_from_cache s now filter_id) [
        | none ↦ err (json_rpc filter_not_found)
        | some filter ↦ do
          found ← changes_of t t' filter
          ok (
            update_filter_cache C s now filter_id
                (record { kind = filter.kind; last_queried = found.1 }),
            found.0,
          )
      ]
