-- ===== src/FeeHistory.antt =====
-- packages/relay/src/lib/services/ethService/feeService/FeeService.ts: eth_feeHistory. The number of
-- blocks is `Number` of a hexadecimal text: a natural number, or `NaN`, which is `none` here. The
-- mirror node is that of Common, with the same count of requests.
pub mod Bounds
pub mod Clipping
pub mod Positions
mod Examples
use mpcq_json_rpc_relay.Prelude.{
  ℕ, zero, suc, ◌+◌, ◌-◌, ◌*◌, ◌≡◌, Bool, true, false, Option, none, some, List, [], ◌∷◌, ◌++◌,
  Text, codes, length, if◌then◌else◌, ◌==◌, ◌||◌, ltb, leb,
}
use mpcq_json_rpc_relay.Prelude.Results.{Result, ok, err, ◌>>=◌}
use mpcq_json_rpc_relay.Formatters.Hex.{number_to_0x}
use mpcq_json_rpc_relay.Common.{
  Tag, text, tag_is, other, block_latest, block_pending, Thrown, json_rpc, invalid_parameter,
  MirrorNode, MirrorNodeBlock, BlockId, by_number, Config, type_error,
}
use mpcq_json_rpc_relay.Common.Blocks.{translate_block_tag}
use mpcq_json_rpc_relay.Common.Fees.{get_gas_price_in_weibars, gas_price}

-- A number is the text that JSON prints for it; `none` is undefined or null.
pub record IFeeHistory : Type 0 where
  pub base_fee_per_gas : Option (List Text)
  pub gas_used_ratio : Option (List Text)
  pub oldest_block : Text
  pub reward : Option (List (List Text))

-- What the method returns. The error of a block beyond the head is returned, not thrown.
pub data Answer : Type 0 where
  history : IFeeHistory → Answer
  request_beyond_head_block : ℕ → ℕ → Answer

abbrev pub zero_hex : Text
zero_hex = codes "0x0"

abbrev pub default_gas_used_ratio : Text
default_gas_used_ratio = codes "0.5"

abbrev pub fee_history_reward_percentiles_max_size : ℕ
fee_history_reward_percentiles_max_size = 100

-- `Array(n).fill(x)` for a number.
unfoldable pub repeated {ℓ} : {A : Type ℓ} → ℕ → A → List A
repeated zero x = []
repeated (suc n) x = x ∷ repeated n x

-- `Array(n)` throws a `RangeError` when the length is `NaN`.
unfoldable pub array_length : Option ℕ → Result Thrown ℕ
array_length none = err (other (codes "RangeError"))
array_length (some n) = ok n

-- `numberTo0x` of a number or `NaN`.
unfoldable pub number_text : Option ℕ → Text
unfolding number_to_0x
number_text none = codes "0xNaN"
number_text (some n) = number_to_0x n

-- `a > b`; a comparison with `NaN` is false.
unfoldable pub exceeds : Option ℕ → Option ℕ → Bool
exceeds (some a) (some b) = ltb b a
exceeds _ _ = false

-- `Math.max(0, newest - count + 1)`.
unfoldable pub oldest_of : Option ℕ → Option ℕ → Option ℕ
oldest_of (some newest) (some count) = some (newest + 1 - count)
oldest_of _ _ = none

-- How many blocks the loop from the oldest to the newest visits.
unfoldable pub blocks_of : Option ℕ → Option ℕ → ℕ
blocks_of (some oldest) (some newest) = newest + 1 - oldest
blocks_of _ _ = 0

-- `blockCount > maxResults ? maxResults : blockCount`.
unfoldable pub cap_count : ℕ → Option ℕ → Option ℕ
unfolding exceeds
cap_count max_results count = if exceeds count (some max_results) then some max_results else count

-- The rewards, when percentiles are asked for.
unfoldable pub rewards_of : Option ℕ → Option (List ℕ) → Result Thrown (Option (List (List Text)))
unfolding repeated array_length
rewards_of count none = ok none
rewards_of count (some []) = ok none
rewards_of count (some (p ∷ ps)) = do
  n ← array_length count
  ok (some (repeated n (repeated (length (p ∷ ps)) zero_hex)))

-- `_.last`.
unfoldable pub last : List Text → Option Text
last [] = none
last (x ∷ []) = some x
last (x ∷ y ∷ xs) = last (y ∷ xs)

-- A value that is undefined or empty is not pushed.
unfoldable pub push_truthy : List Text → Option Text → List Text
push_truthy fees none = fees
push_truthy fees (some []) = fees
push_truthy fees (some (c ∷ fee)) = fees ++ (c ∷ fee) ∷ []

unfoldable pub fee_text : Result Thrown ℕ → Text
unfolding number_to_0x
fee_text (ok fee) = number_to_0x fee
fee_text (err e) = number_to_0x 0

unfoldable pub get_repeated_fee_history :
    Option ℕ → Option ℕ → Option (List ℕ) → Text → Result Thrown IFeeHistory
unfolding repeated array_length number_text rewards_of
get_repeated_fee_history count oldest percentiles fee = do
  n ← array_length count
  rewards ← rewards_of count percentiles
  ok (record {
    base_fee_per_gas = some (repeated n fee ++ fee ∷ []);
    gas_used_ratio = some (repeated n default_gas_used_ratio);
    oldest_block = number_text oldest;
    reward = rewards;
  })

-- With fixed fees: the blocks that are answered. A range that would begin at 0 or before is the block 1.
unfoldable pub fixed_range : Option ℕ → Option ℕ → Option ℕ × Option ℕ
fixed_range (some newest) (some n) =
    if leb (newest + 1) n then (some 1, some 1) else (some n, some (newest + 1 - n))
fixed_range _ count = (count, none)

unfoldable pub fixed_history :
    Option ℕ × Option ℕ → Option (List ℕ) → Text → Result Thrown IFeeHistory
unfolding get_repeated_fee_history
fixed_history range percentiles price = get_repeated_fee_history range.0 range.1 percentiles price

unfoldable pub is_zero_count : Option ℕ → Bool
is_zero_count none = false
is_zero_count (some n) = n == 0

abbrev pub zero_block_count : IFeeHistory
zero_block_count = record {
  base_fee_per_gas = none;
  gas_used_ratio = none;
  oldest_block = zero_hex;
  reward = none;
}

abbrev pub empty_history : IFeeHistory
empty_history = record {
  base_fee_per_gas = some [];
  gas_used_ratio = some [];
  oldest_block = zero_hex;
  reward = some [];
}

unfoldable pub too_many_percentiles : Option (List ℕ) → Bool
too_many_percentiles none = false
too_many_percentiles (some ps) = ltb fee_history_reward_percentiles_max_size (length ps)

module _ (M : MirrorNode) (C : Config) where
  -- The requests `t` and `t + 1`. An error, that of a block that is null included, gives 0.
  unfoldable pub get_fee_by_block_number : ℕ → ℕ → Text
  unfolding fee_text get_gas_price_in_weibars
  get_fee_by_block_number t n = fee_text (do
    block ← M.get_block t (by_number (some n))
    b ← elim block [ none ↦ err type_error | some b ↦ ok b ]
    get_gas_price_in_weibars M C (t + 1) (some (codes "lte:" ++ b.timestamp_to)))

  -- The fees of `k` blocks from `n` on.
  unfoldable pub fees_from : ℕ → ℕ → ℕ → List Text
  unfolding get_fee_by_block_number
  fees_from t n zero = []
  fees_from t n (suc k) = get_fee_by_block_number t n ∷ fees_from (t + 2) (suc n) k

  unfoldable pub fees_between : ℕ → Option ℕ → Option ℕ → List Text
  unfolding fees_from blocks_of
  fees_between t none newest = []
  fees_between t (some oldest) newest = fees_from t oldest (blocks_of (some oldest) newest)

  -- The fee of the block after the newest, or the last one again when the newest is the head.
  unfoldable pub next_base_fee : ℕ → Option ℕ → Option ℕ → List Text → Option Text
  unfolding get_fee_by_block_number last exceeds
  next_base_fee t (some newest) latest fees =
      if exceeds latest (some newest)
      then some (get_fee_by_block_number t (newest + 1))
      else last fees
  next_base_fee t none latest fees = last fees

  unfoldable pub history_from :
      ℕ → Option ℕ → Option ℕ → Option ℕ → Option (List (List Text)) → IFeeHistory
  unfolding fees_between next_base_fee push_truthy repeated blocks_of number_text
  history_from t oldest newest latest rewards =
      let fees = fees_between t oldest newest in
      record {
        base_fee_per_gas =
            some (
              push_truthy fees
                (next_base_fee (t + 2 * blocks_of oldest newest) newest latest fees));
        gas_used_ratio = some (repeated (blocks_of oldest newest) default_gas_used_ratio);
        oldest_block = number_text oldest;
        reward = rewards;
      }

  unfoldable pub get_fee_history :
      ℕ → Option ℕ → Option ℕ → Option ℕ → Option (List ℕ) → Result Thrown IFeeHistory
  unfolding oldest_of history_from rewards_of
  get_fee_history t count newest latest percentiles = do
    rewards ← rewards_of count percentiles
    ok (history_from t (oldest_of newest count) newest latest rewards)

  unfoldable pub newest_number : ℕ → Option ℕ → Tag → Result Thrown (Option ℕ)
  unfolding tag_is translate_block_tag
  newest_number t latest newest_block =
      if tag_is newest_block block_latest || tag_is newest_block block_pending
      then ok latest
      else translate_block_tag M C t newest_block

  -- The history of a number of blocks that is capped already: with fixed fees from the gas price.
  unfoldable pub history_of :
      Bool → ℕ → Option ℕ → Option ℕ → Option ℕ → Option (List ℕ) → Result Thrown IFeeHistory
  unfolding fixed_range fixed_history get_fee_history gas_price is_zero_count
  history_of fixed t count newest latest percentiles =
      if is_zero_count count
      then ok zero_block_count
      else (if fixed
          then (do
            price ← gas_price M C t
            fixed_history (fixed_range newest count) percentiles price)
          else get_fee_history t count newest latest percentiles)

  unfoldable pub answer_between :
      Bool → ℕ → ℕ → Option ℕ → Option ℕ → Option ℕ → Option (List ℕ) → Result Thrown Answer
  unfolding exceeds cap_count history_of
  answer_between fixed max_results t count (some newest) (some latest) percentiles =
      if ltb latest newest then ok (request_beyond_head_block newest latest) else (do
        h ← history_of fixed t (cap_count max_results count) (some newest) (some latest) percentiles
        ok (history h))
  answer_between fixed max_results t count newest latest percentiles = do
    h ← history_of fixed t (cap_count max_results count) newest latest percentiles
    ok (history h)

  -- What fails after the first check is answered with an empty history.
  unfoldable pub fee_history :
      Bool → ℕ → ℕ → Option ℕ → Tag → Option (List ℕ) → Result Thrown Answer
  unfolding too_many_percentiles translate_block_tag newest_number answer_between
  fee_history fixed max_results t count newest_block percentiles =
      if too_many_percentiles percentiles
      then err (json_rpc (invalid_parameter 2))
      else (elim (do
        latest ← translate_block_tag M C t (text block_latest)
        newest ← newest_number (t + 1) latest newest_block
        answer_between fixed max_results (t + 2) count newest latest percentiles) [
          | ok a ↦ ok a
          | err e ↦ ok (history empty_history)
        ])
