-- ===== src/Common.antt =====
-- packages/relay/src/lib/services/ethService/ethCommonService: block parameters, the ranges of log
-- requests, the logs themselves and gas prices. This file has what the parts share.
-- The mirror node is a parameter. Its answers may change between two requests, so each request has a
-- number: the requests of a call are counted from the number it is given, and a request that is not
-- made leaves its number out.
pub mod Blocks
pub mod Ranges
pub mod Logs
pub mod Fees
pub mod RangeBounds
pub mod RangeErrors
pub mod Sorting
pub mod Topics
pub mod Answers
mod Examples
use mpcq_json_rpc_relay.Prelude.{
  ℕ, ◌-◌, ◌*◌, ◌+◌, Bool, true, false, Option, none, some, List, [], ◌∷◌, Text, codes, text_eq,
  length, if◌then◌else◌, ◌==◌, ◌&&◌, ◌||◌, leb,
}
use mpcq_json_rpc_relay.Prelude.Results.{Result}
use mpcq_json_rpc_relay.Formatters.Hex.{parse_hex}

-- The errors of `predefined` that these parts throw.
pub data JsonRpcError : Type 0 where
  missing_from_block_param invalid_block_range could_not_retrieve_latest_block : JsonRpcError
  unsupported_method filter_not_found : JsonRpcError
  timestamp_range_too_large : Text → Text → Text → Text → JsonRpcError
  range_too_large : ℕ → JsonRpcError
  invalid_parameter : ℕ → JsonRpcError
  internal_error : Text → JsonRpcError

-- What is thrown: `mirror_node` carries the status, `other` is any error without a class of its own.
pub data Thrown : Type 0 where
  json_rpc : JsonRpcError → Thrown
  mirror_node : ℕ → Thrown
  sdk_client : Thrown
  other : Text → Thrown

-- `TypeError`: a property of null or undefined is read.
abbrev pub type_error : Thrown
type_error = other (codes "TypeError")

-- A block parameter as JavaScript has it: a filter passes the number of a block on.
pub data Tag : Type 0 where
  absent : Tag
  text : Text → Tag
  block_number : ℕ → Tag

pub record MirrorNodeBlock : Type 0 where
  pub number : ℕ
  pub hash : Text
  pub timestamp_from : Text
  pub timestamp_to : Text

-- What `getBlock` is asked for: a number, `none` being `NaN`, or a hash.
pub data BlockId : Type 0 where
  by_number : Option ℕ → BlockId
  by_hash : Text → BlockId

pub record MirrorNodeLog : Type 0 where
  pub address : Text
  pub timestamp : Text
  pub block_hash : Text
  pub block_number : ℕ
  pub call_data : Text
  pub index : ℕ
  pub topics : List Text
  pub transaction_hash : Text
  pub transaction_index : ℕ

-- `gte:` or `lte:` and a timestamp.
pub data TimestampParam : Type 0 where
  gte lte : Text → TimestampParam

-- A topic of the request: one value, or a list of values any of which may match.
pub data TopicParam : Type 0 where
  one : Text → TopicParam
  any_of : List Text → TopicParam

-- The parameters of a request for logs. `topics` has the number of each topic with it.
pub record LogParams : Type 0 where
  pub timestamp : List TimestampParam
  pub topics : List (ℕ × TopicParam)

-- A fee of the network: its type of transaction and the price.
pub record NetworkFee : Type 0 where
  pub transaction_type : Text
  pub gas : ℕ

-- What an entity of the network is, with the address that it has in the EVM.
pub data Entity : Type 0 where
  contract account token : Option Text → Entity

-- `MirrorNodeClient`: the answer to a request with a number.
pub record MirrorNode : Type 0 where
  pub get_latest_block : ℕ → Result Thrown (Option (List MirrorNodeBlock))
  pub get_block : ℕ → BlockId → Result Thrown (Option MirrorNodeBlock)
  pub get_logs_by_address : ℕ → Text → LogParams → Result Thrown (Option (List MirrorNodeLog))
  pub get_logs : ℕ → LogParams → Result Thrown (Option (List MirrorNodeLog))
  pub get_blocks_after : ℕ → Tag → Result Thrown (Option (List MirrorNodeBlock))
  pub get_network_fees : ℕ → Option Text → Result Thrown (Option (List NetworkFee))
  pub resolve_entity_type : ℕ → Text → Result Thrown (Option Entity)

pub record Config : Type 0 where
  pub logs_block_range_limit : ℕ
  pub max_block_range : ℕ
  pub filter_api_enabled : Bool
  pub filter_ttl : ℕ
  pub gas_price_percentage_buffer : ℕ

abbrev pub max_timestamp_param_range : ℕ
max_timestamp_param_range = 604800

abbrev pub max_safe_integer : ℕ
max_safe_integer = 9007199254740991

abbrev is_digit : ℕ → Bool
is_digit c = leb b'0' c && leb c b'9'

unfoldable pub decimal_from : ℕ → Text → Option ℕ
decimal_from acc [] = some acc
decimal_from acc (c ∷ s) =
    let rest = decimal_from (acc * 10 + (c - b'0')) s in if is_digit c then rest else none

-- `Number(s)` where it is a natural number, and `NaN` else; signs, fractions, exponents and blanks
-- are not read.
unfoldable pub number_of_text : Text → Option ℕ
unfolding decimal_from
number_of_text (a ∷ b ∷ c ∷ s) =
    if (a == b'0') && (b == b'x' || b == b'X')
    then parse_hex (c ∷ s)
    else decimal_from 0 (a ∷ b ∷ c ∷ s)
number_of_text s = decimal_from 0 s

-- `Number(tag)`; `absent` is undefined here.
unfoldable pub number_of : Tag → Option ℕ
unfolding number_of_text
number_of absent = none
number_of (text s) = number_of_text s
number_of (block_number n) = some n

-- `tag === s` for a string `s`.
unfoldable pub tag_is : Tag → Text → Bool
tag_is absent s = false
tag_is (text t) s = text_eq t s
tag_is (block_number n) s = false

abbrev pub block_latest : Text
block_latest = codes "latest"

abbrev pub block_pending : Text
block_pending = codes "pending"

abbrev pub block_safe : Text
block_safe = codes "safe"

abbrev pub block_finalized : Text
block_finalized = codes "finalized"

abbrev pub block_earliest : Text
block_earliest = codes "earliest"

unfoldable pub block_tag_is_latest_or_pending_strict : Tag → Bool
unfolding tag_is
block_tag_is_latest_or_pending_strict tag = tag_is tag block_latest || tag_is tag block_pending

abbrev pub is_absent : Tag → Bool
is_absent absent = true
is_absent _ = false

unfoldable pub block_tag_is_latest_or_pending : Tag → Bool
unfolding tag_is
block_tag_is_latest_or_pending tag =
    is_absent tag
    || tag_is tag block_latest
    || tag_is tag block_pending
    || tag_is tag block_safe
    || tag_is tag block_finalized

-- A value that is falsy: undefined, null, the empty string and 0.
unfoldable pub is_falsy : Tag → Bool
is_falsy absent = true
is_falsy (text s) = text_eq s []
is_falsy (block_number n) = n == 0

-- `genericErrorHandler`, which throws its answer.
unfoldable pub generic_error_handler : Thrown → Thrown
generic_error_handler (other message) = json_rpc (internal_error message)
generic_error_handler error = error
