-- ===== src/Common/Blocks.antt =====
-- CommonService.ts: blocks by number, tag or hash, and which block parameters are valid.
use mpcq_json_rpc_relay.Prelude.{
  ℕ, ◌+◌, Bool, true, false, Option, none, some, List, [], ◌∷◌, Text, codes, text_eq, length,
  if◌then◌else◌, ◌==◌, ◌&&◌, ◌||◌, leb, ltb, not,
}
use mpcq_json_rpc_relay.Prelude.Results.{Result, ok, err, ◌>>=◌}
use mpcq_json_rpc_relay.Formatters.Hex.{number_to_0x}
use mpcq_json_rpc_relay.Formatters.Prefix.{is_hex_digit, all_hex}
use mpcq_json_rpc_relay.Common.{
  could_not_retrieve_latest_block, Thrown, json_rpc, type_error, Tag, absent, text, block_number,
  MirrorNodeBlock, by_number, by_hash, MirrorNode, Config, max_safe_integer, number_of_text,
  number_of, tag_is, block_earliest, block_latest, block_finalized, block_pending, block_safe,
  block_tag_is_latest_or_pending,
}

-- `blocks[0]`.
abbrev pub first {ℓ} : {A : Type ℓ} → List A → Option A
first [] = none
first (x ∷ xs) = some x

-- `response.blocks[0]`, where a missing response has no property to read.
unfoldable pub first_of {ℓ} : {A : Type ℓ} → Option (List A) → Result Thrown (Option A)
first_of none = err type_error
first_of (some blocks) = ok (first blocks)

-- `latestBlock.number`.
unfoldable pub number_of_block : Option MirrorNodeBlock → Result Thrown ℕ
number_of_block none = err type_error
number_of_block (some block) = ok block.number

-- `tag.length < 32` and `Number(tag)` is a number; a number has no length.
unfoldable pub short_number : Tag → Option ℕ
unfolding number_of_text
short_number (text s) = if ltb (length s) 32 then number_of_text s else none
short_number _ = none

module _ (M : MirrorNode) (C : Config) where
  -- The number is too far past the latest block, which the request `t` gives.
  unfoldable pub is_beyond_head : ℕ → Option ℕ → Result Thrown Bool
  unfolding first_of number_of_block
  is_beyond_head t none = ok false
  is_beyond_head t (some n) = do
    response ← M.get_latest_block t
    latest_block ← first_of response
    latest_number ← number_of_block latest_block
    ok (ltb (latest_number + C.max_block_range) n)

  unfoldable pub latest_block : ℕ → Result Thrown (Option MirrorNodeBlock)
  unfolding first_of
  latest_block t = do response ← M.get_latest_block t; first_of response

  -- The end of `getHistoricalBlockResponse`, after its checks.
  unfoldable pub fetch_block : ℕ → Tag → Result Thrown (Option MirrorNodeBlock)
  unfolding latest_block number_of_text
  fetch_block t absent = latest_block t
  fetch_block t (block_number n) = M.get_block t (by_number (some n))
  fetch_block t (text s) =
      if block_tag_is_latest_or_pending (text s)
      then latest_block t
      else (if text_eq s block_earliest
          then M.get_block t (by_number (some 0))
          else (if ltb (length s) 32
              then M.get_block t (by_number (number_of_text s))
              else M.get_block t (by_hash s)))

  -- The requests `t` and `t + 1`.
  unfoldable pub get_historical_block_response :
      ℕ → Tag → Bool → Result Thrown (Option MirrorNodeBlock)
  unfolding is_beyond_head fetch_block short_number tag_is
  get_historical_block_response t tag return_latest =
      if not return_latest && block_tag_is_latest_or_pending tag
      then ok none
      else (if tag_is tag (codes "0x") then ok none else (do
        beyond ← is_beyond_head t (short_number tag)
        if beyond then ok none else fetch_block (t + 1) tag))

  unfoldable pub get_latest_block_number : ℕ → Result Thrown Text
  unfolding number_to_0x
  get_latest_block_number t = do
    response ← M.get_latest_block t
    elim response [
      | none ↦ err (json_rpc could_not_retrieve_latest_block)
      | some [] ↦ err (json_rpc could_not_retrieve_latest_block)
      | some (block ∷ blocks) ↦ ok (number_to_0x block.number)
    ]

  -- `none` is `NaN`.
  unfoldable pub translate_block_tag : ℕ → Tag → Result Thrown (Option ℕ)
  unfolding get_latest_block_number number_of tag_is number_of_text
  translate_block_tag t tag =
      if block_tag_is_latest_or_pending tag
      then (do latest ← get_latest_block_number t; ok (number_of_text latest))
      else (if tag_is tag block_earliest then ok (some 0) else ok (number_of tag))

unfoldable pub is_block_tag_earliest : Text → Bool
unfolding text_eq
is_block_tag_earliest tag = text_eq tag block_earliest

unfoldable pub is_block_tag_finalized : Text → Bool
unfolding text_eq
is_block_tag_finalized tag =
    text_eq tag block_finalized
    || text_eq tag block_latest
    || text_eq tag block_pending
    || text_eq tag block_safe

-- `[1-9A-Fa-f]+[0-9A-Fa-f]{0,13}` to the end: the first group takes digits up to the last 13 or fewer.
unfoldable pub is_block_digits : Text → Bool
unfolding is_hex_digit all_hex
is_block_digits [] = false
is_block_digits (c ∷ s) =
    let rest = is_block_digits s in
    is_hex_digit c && not (c == b'0') && ((leb (length s) 13 && all_hex s) || rest)

abbrev is_safe : Option ℕ → Bool
is_safe none = false
is_safe (some n) = leb n max_safe_integer

unfoldable pub is_block_num_valid : Text → Bool
unfolding is_block_digits number_of_text text_eq
is_block_num_valid (a ∷ b ∷ s) =
    (a == b'0')
    && (b == b'x' || b == b'X')
    && (is_block_digits s || text_eq s (codes "0"))
    && is_safe (number_of_text (a ∷ b ∷ s))
is_block_num_valid s = false

unfoldable pub is_block_param_valid : Option Text → Bool
unfolding is_block_tag_earliest is_block_tag_finalized is_block_num_valid
is_block_param_valid none = true
is_block_param_valid (some tag) =
    is_block_tag_earliest tag || is_block_tag_finalized tag || is_block_num_valid tag

-- `/^0[xX][a-fA-F0-9]{64}$/`.
unfoldable pub is_block_hash : Text → Bool
unfolding all_hex
is_block_hash (a ∷ b ∷ s) = (a == b'0') && (b == b'x' || b == b'X') && (length s == 64) && all_hex s
is_block_hash s = false
