-- ===== src/Common/Logs.antt =====
-- CommonService.ts and commonWorker.ts: the logs of a request. `Promise.all` and the pool of workers
-- give the answers in the order of the requests.
use mpcq_json_rpc_relay.Prelude.{
  ℕ, suc, ◌+◌, Bool, true, false, Option, none, some, List, [], ◌∷◌, ◌++◌, Text, text_eq, length,
  if◌then◌else◌, ◌==◌, ltb, map,
}
use mpcq_json_rpc_relay.Prelude.Results.{Result, ok, err, ◌>>=◌}
use mpcq_json_rpc_relay.Formatters.Hex.{number_to_0x}
use mpcq_json_rpc_relay.Formatters.Prefix.{trim_preceding_zeros, to_hash32}
use mpcq_json_rpc_relay.Common.{
  invalid_parameter, Thrown, json_rpc, Tag, MirrorNodeLog, TimestampParam, TopicParam, one, any_of,
  LogParams, MirrorNode, Config,
}
use mpcq_json_rpc_relay.Common.Ranges.{
  Address, no_address, address, addresses, before_dot, whole,
  validate_block_range_and_add_timestamp_to_params, validate_block_hash_and_add_timestamp_to_params,
}

-- A topic of the request: null, a value or a list; `none` is a value that is no string.
pub data Topic : Type 0 where
  nil : Topic
  value : Option Text → Topic
  nested : List (Option Text) → Topic

unfoldable pub trim_all : ℕ → List (Option Text) → Result Thrown (List Text)
unfolding trim_preceding_zeros
trim_all i [] = ok []
trim_all i (t ∷ ts) = elim (trim_preceding_zeros t) [
  | none ↦ err (json_rpc (invalid_parameter i))
  | some trimmed ↦ do rest ← trim_all i ts; ok (trimmed ∷ rest)
]

unfoldable pub topic_param : ℕ → Topic → Result Thrown (Option TopicParam)
unfolding trim_all trim_preceding_zeros
topic_param i nil = ok none
topic_param i (value t) = elim (trim_preceding_zeros t) [
  | none ↦ err (json_rpc (invalid_parameter i))
  | some trimmed ↦ ok (some (one trimmed))
]
topic_param i (nested ts) =
    if ltb 100 (length ts)
    then err (json_rpc (invalid_parameter i))
    else (do trimmed ← trim_all i ts; ok (some (any_of trimmed)))

-- What the loop adds to the parameters from the topic `i` on.
unfoldable pub topics_from : ℕ → List Topic → Result Thrown (List (ℕ × TopicParam))
unfolding topic_param
topics_from i [] = ok []
topics_from i (t ∷ ts) = do
  param ← topic_param i t
  rest ← topics_from (suc i) ts
  elim param [ none ↦ ok rest | some p ↦ ok ((i, p) ∷ rest) ]

unfoldable pub add_topics_to_params : LogParams → Option (List Topic) → Result Thrown LogParams
unfolding topics_from
add_topics_to_params params none = ok params
add_topics_to_params params (some topics) = do
  added ← topics_from 0 topics
  ok (record params { topics = params.topics ++ added })

-- `a >= b` on strings.
unfoldable pub text_geb : Text → Text → Bool
text_geb a [] = true
text_geb [] (d ∷ b) = false
text_geb (c ∷ a) (d ∷ b) = if c == d then text_geb a b else ltb d c

-- `sort` with the comparison of the timestamps, by insertion: a log goes before the first of those
-- after it that is not earlier.
unfoldable pub insert_log : MirrorNodeLog → List MirrorNodeLog → List MirrorNodeLog
unfolding text_geb
insert_log l [] = l ∷ []
insert_log l (m ∷ ms) =
    let rest = insert_log l ms in if text_geb m.timestamp l.timestamp then l ∷ m ∷ ms else m ∷ rest

unfoldable pub sort_logs : List MirrorNodeLog → List MirrorNodeLog
unfolding insert_log
sort_logs [] = []
sort_logs (l ∷ ls) = insert_log l (sort_logs ls)

unfoldable pub or_empty {ℓ} : {A : Type ℓ} → Option (List A) → List A
or_empty none = []
or_empty (some xs) = xs

-- What the relay answers, `removed` being false.
pub record Log : Type 0 where
  pub address : Text
  pub block_timestamp : Text
  pub block_hash : Text
  pub block_number : Text
  pub call_data : Text
  pub log_index : Text
  pub topics : List Text
  pub transaction_hash : Text
  pub transaction_index : Text

unfoldable pub to_log : MirrorNodeLog → Log
unfolding number_to_0x to_hash32 before_dot whole
to_log l = record {
  address = l.address;
  block_timestamp = number_to_0x (whole 0 (before_dot l.timestamp));
  block_hash = to_hash32 l.block_hash;
  block_number = number_to_0x l.block_number;
  call_data = l.call_data;
  log_index = number_to_0x l.index;
  topics = l.topics;
  transaction_hash = to_hash32 l.transaction_hash;
  transaction_index = number_to_0x l.transaction_index;
}

module _ (M : MirrorNode) (C : Config) where
  -- The answers of all addresses, one after the other. The requests from `t` on.
  unfoldable pub logs_of_addresses : ℕ → List Text → LogParams → Result Thrown (List MirrorNodeLog)
  unfolding or_empty
  logs_of_addresses t [] params = ok []
  logs_of_addresses t (a ∷ rest_of) params = do
    answer ← M.get_logs_by_address t a params
    rest ← logs_of_addresses (suc t) rest_of params
    ok (or_empty answer ++ rest)

  unfoldable pub get_logs_by_address :
      ℕ → List Text → LogParams → Result Thrown (List MirrorNodeLog)
  unfolding logs_of_addresses sort_logs
  get_logs_by_address t xs params = do logs ← logs_of_addresses t xs params; ok (sort_logs logs)

  unfoldable pub log_results : ℕ → Address → LogParams → Result Thrown (List MirrorNodeLog)
  unfolding get_logs_by_address or_empty
  log_results t no_address params = do answer ← M.get_logs t params; ok (or_empty answer)
  log_results t (addresses xs) params = get_logs_by_address t xs params
  log_results t (address a) params =
      if text_eq a []
      then (do answer ← M.get_logs t params; ok (or_empty answer))
      else get_logs_by_address t (a ∷ []) params

  unfoldable pub get_logs_with_params : ℕ → Address → LogParams → Result Thrown (List Log)
  unfolding log_results to_log
  get_logs_with_params t addr params = do logs ← log_results t addr params; ok (map to_log logs)

  -- The timestamps of the block with a hash, or of a range of blocks.
  unfoldable pub timestamps :
      ℕ → Option Text → Tag → Tag → Address → Result Thrown (Option (List TimestampParam))
  timestamps t none from_block to_block addr =
      validate_block_range_and_add_timestamp_to_params M C t from_block to_block addr
  timestamps t (some block_hash) from_block to_block addr =
      if text_eq block_hash []
      then validate_block_range_and_add_timestamp_to_params M C t from_block to_block addr
      else validate_block_hash_and_add_timestamp_to_params M C t block_hash

  -- `getLogs` of the worker. The requests from `t` on.
  unfoldable pub get_logs :
      ℕ → Option Text → Tag → Tag → Address → Option (List Topic) → Result Thrown (List Log)
  unfolding timestamps get_logs_with_params add_topics_to_params
  get_logs t block_hash from_block to_block addr topics = do
    found ← timestamps t block_hash from_block to_block addr
    elim found [
      | none ↦ ok []
      | some ts ↦ do
        params ← add_topics_to_params (record { timestamp = ts; topics = [] }) topics
        get_logs_with_params (t + 5) addr params
    ]
