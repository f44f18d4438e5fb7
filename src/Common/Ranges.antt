-- ===== src/Common/Ranges.antt =====
-- CommonService.ts: the block ranges of log requests and of filters.
use mpcq_json_rpc_relay.Prelude.{
  ℕ, ◌+◌, ◌-◌, ◌*◌, ◌/◌, Bool, true, false, Option, none, some, List, [], ◌∷◌, Text, text_eq,
  length, if◌then◌else◌, ◌==◌, ◌&&◌, ◌||◌, ltb, not,
}
use mpcq_json_rpc_relay.Prelude.Results.{Result, ok, err, ◌>>=◌, ◌>>◌, throw_if}
use mpcq_json_rpc_relay.Formatters.Hex.{number_to_0x}
use mpcq_json_rpc_relay.Common.{
  missing_from_block_param, invalid_block_range, timestamp_range_too_large, range_too_large, Thrown,
  json_rpc, mirror_node, sdk_client, other, Tag, absent, text, block_number, MirrorNodeBlock,
  by_hash, TimestampParam, gte, lte, MirrorNode, Config, number_of, number_of_text, is_falsy,
  block_latest, block_tag_is_latest_or_pending, max_timestamp_param_range,
}
use mpcq_json_rpc_relay.Common.Blocks.{get_historical_block_response, get_latest_block_number}

-- What stands before and after the dot of a timestamp.
unfoldable pub before_dot : Text → Text
before_dot [] = []
before_dot (c ∷ s) = let rest = before_dot s in if c == b'.' then [] else c ∷ rest

unfoldable pub after_dot : Text → Text
after_dot [] = []
after_dot (c ∷ s) = let rest = after_dot s in if c == b'.' then s else rest

-- The digits with the weight of the first, a tenth of it for the next, and so on.
unfoldable pub weighted : ℕ → Text → ℕ
weighted w [] = 0
weighted w (c ∷ s) = (c - b'0') * w + weighted (w / 10) s

unfoldable pub whole : ℕ → Text → ℕ
whole acc [] = acc
whole acc (c ∷ s) = whole (acc * 10 + (c - b'0')) s

-- The number that a timestamp of seconds and nanoseconds stands for, in nanoseconds: the code
-- takes it in seconds, as a floating point number.
unfoldable pub nanoseconds : Text → ℕ
unfolding before_dot after_dot weighted whole
nanoseconds s = whole 0 (before_dot s) * 1000000000 + weighted 100000000 (after_dot s)

-- `address`: a text, a list, or nothing.
pub data Address : Type 0 where
  no_address : Address
  address : Text → Address
  addresses : List Text → Address

unfoldable pub is_single_address : Address → Bool
is_single_address no_address = false
is_single_address (address s) = not (text_eq s [])
is_single_address (addresses xs) = length xs == 1

-- The tags of the latest block are read as `latest`.
unfoldable pub or_latest : Tag → Tag
or_latest tag = if block_tag_is_latest_or_pending tag then text block_latest else tag

unfoldable pub same_number : Option ℕ → Option ℕ → Bool
same_number (some n) (some m) = n == m
same_number _ _ = false

unfoldable pub same_tag : Tag → Tag → Bool
same_tag absent absent = true
same_tag (text s) (text t) = text_eq s t
same_tag (block_number n) (block_number m) = n == m
same_tag _ _ = false

-- `Number(tag)` of a tag that is not of the latest block. `none` is null here.
unfoldable pub explicit_number : Tag → Option (Option ℕ)
unfolding number_of
explicit_number tag = if block_tag_is_latest_or_pending tag then none else some (number_of tag)

-- `!n` for a number that is null, `NaN` or 0.
unfoldable pub no_number : Option (Option ℕ) → Bool
no_number none = true
no_number (some none) = true
no_number (some (some n)) = n == 0

-- The number of the answer, or what was there when there is no answer.
unfoldable pub refetch : Option MirrorNodeBlock → Option (Option ℕ) → Option (Option ℕ)
refetch none old = old
refetch (some block) old = some (some block.number)

-- `a > b`, where null counts as 0 and nothing is more or less than `NaN`.
unfoldable pub number_exceeds : Option (Option ℕ) → Option (Option ℕ) → Bool
number_exceeds none b = false
number_exceeds (some none) b = false
number_exceeds (some (some n)) none = ltb 0 n
number_exceeds (some (some n)) (some none) = false
number_exceeds (some (some n)) (some (some m)) = ltb m n

module _ (M : MirrorNode) (C : Config) where
  -- The check of `fromBlock` at the head of both methods, with the request `t`.
  unfoldable pub check_from_block : ℕ → Tag → Tag → Result Thrown (Unit {0})
  unfolding number_of is_falsy same_number number_of_text
  check_from_block t from_block to_block =
      if block_tag_is_latest_or_pending to_block then ok tt else (do
        latest_block_number ← get_latest_block_number M C t
        throw_if
            (not (same_number (number_of to_block) (number_of_text latest_block_number))
              && is_falsy from_block)
            (json_rpc missing_from_block_param))

  -- The checks of two blocks that differ.
  unfoldable pub check_range :
      MirrorNodeBlock → MirrorNodeBlock → Address → Result Thrown (Unit {0})
  unfolding nanoseconds is_single_address number_to_0x
  check_range from_response to_response addr = do
    throw_if
        (ltb (max_timestamp_param_range * 1000000000)
          (nanoseconds to_response.timestamp_to - nanoseconds from_response.timestamp_from))
        (json_rpc (
          timestamp_range_too_large (number_to_0x from_response.number) from_response.timestamp_from
            (number_to_0x to_response.number) to_response.timestamp_to))
    throw_if (ltb to_response.number from_response.number) (json_rpc invalid_block_range)
    throw_if
        (not (is_single_address addr)
          && ltb C.logs_block_range_limit (to_response.number - from_response.number))
        (json_rpc (range_too_large C.logs_block_range_limit))

  -- The part after the first block is there; `none` is the answer false.
  unfoldable pub bound_range :
      ℕ → MirrorNodeBlock → Tag → Tag → Address → Result Thrown (Option (List TimestampParam))
  unfolding same_tag check_range
  bound_range t from_response from_block to_block addr =
      if same_tag from_block to_block
      then ok (some (gte from_response.timestamp_from ∷ lte from_response.timestamp_to ∷ []))
      else (do
        response ← get_historical_block_response M C t to_block true
        elim response [
          | none ↦ ok none
          | some to_response ↦
              check_range from_response to_response addr
              >> ok (some (gte from_response.timestamp_from ∷ lte to_response.timestamp_to ∷ []))
        ])

  -- `none` is the answer false, after which no caller reads the parameters; else the answer is true
  -- and `params.timestamp` is given. The requests `t` to `t + 4`.
  unfoldable pub validate_block_range_and_add_timestamp_to_params :
      ℕ → Tag → Tag → Address → Result Thrown (Option (List TimestampParam))
  unfolding check_from_block or_latest bound_range
  validate_block_range_and_add_timestamp_to_params t from_block to_block addr =
      check_from_block t from_block to_block >> (do
        response ← get_historical_block_response M C (t + 1) (or_latest from_block) true
        elim response [
          | none ↦ ok none
          | some from_response ↦
              bound_range (t + 3) from_response (or_latest from_block) (or_latest to_block) addr
        ])

  -- The answer is always true. The requests `t` to `t + 4`.
  unfoldable pub validate_block_range : ℕ → Tag → Tag → Result Thrown (Unit {0})
  unfolding check_from_block or_latest explicit_number no_number refetch number_exceeds
  validate_block_range t from_block to_block =
      let from_number = explicit_number from_block in
      let to_number = explicit_number to_block in
      check_from_block t from_block to_block
      >> (if no_number from_number || no_number to_number
          then (do
            from_response ← get_historical_block_response M C (t + 1) (or_latest from_block) true
            to_response ← get_historical_block_response M C (t + 3) (or_latest to_block) true
            throw_if
                (number_exceeds (refetch from_response from_number) (refetch to_response to_number))
                (json_rpc invalid_block_range))
          else throw_if (number_exceeds from_number to_number) (json_rpc invalid_block_range))

  -- A status 404 of the mirror node is the answer false.
  unfoldable pub validate_block_hash_and_add_timestamp_to_params :
      ℕ → Text → Result Thrown (Option (List TimestampParam))
  validate_block_hash_and_add_timestamp_to_params t block_hash =
      elim (M.get_block t (by_hash block_hash)) [
        | ok none ↦ ok none
        | ok (some block) ↦ ok (some (gte block.timestamp_from ∷ lte block.timestamp_to ∷ []))
        | err (mirror_node status) ↦ if status == 404 then ok none else err (mirror_node status)
        | err (json_rpc e) ↦ err (json_rpc e)
        | err sdk_client ↦ err sdk_client
        | err (other message) ↦ err (other message)
      ]
