-- ===== src/FeeHistory/Clipping.antt =====
-- What is answered when more blocks are asked for than there are up to the newest.
use mpcq_json_rpc_relay.Prelude.{
  ℕ, ◌+◌, ◌-◌, ◌<◌, ◌≤◌, ◌≡◌, refl, ap, ◌∙◌, true, false, none, some, List, [], ◌∷◌, Text, ltb, leb,
  length, if◌then◌else◌, arith,
}
use mpcq_json_rpc_relay.Prelude.Results.{ok, err, ◌>>=◌}
use mpcq_json_rpc_relay.Formatters.Hex.{number_to_0x}
use mpcq_json_rpc_relay.Common.{Tag, text, MirrorNode, Config, block_latest}
use mpcq_json_rpc_relay.Common.Blocks.{translate_block_tag}
use mpcq_json_rpc_relay.Common.Fees.{gas_price}
use mpcq_json_rpc_relay.FeeHistory.{
  IFeeHistory, history, request_beyond_head_block, zero_hex, repeated, array_length, exceeds,
  oldest_of, blocks_of, cap_count, get_repeated_fee_history, default_gas_used_ratio, number_text,
  rewards_of, fixed_range, fixed_history, history_from, get_fee_history, is_zero_count,
  newest_number, history_of, answer_between, too_many_percentiles, fee_history, zero_block_count,
  empty_history,
}
use mpcq_json_rpc_relay.FeeHistory.Positions.{length-repeated}

-- The answer about one block.
abbrev pub one_block : ℕ → Text → IFeeHistory
one_block oldest price = record {
  base_fee_per_gas = some (price ∷ price ∷ []);
  gas_used_ratio = some (default_gas_used_ratio ∷ []);
  oldest_block = number_to_0x oldest;
  reward = none;
}

cap_within : (m n : ℕ) → n ≤ m → cap_count m (some n) ≡ some n
unfolding cap_count exceeds
cap_within m n h =
    let within : ltb m n ≡ false = ground (arith, h) in
    ap (λ b. if b then some m else some n) within

fixed_clipped :
    (newest n : ℕ) (price : Text)
    → newest < n
    → fixed_history (fixed_range (some newest) (some n)) none price ≡ ok (one_block 1 price)
unfolding fixed_history fixed_range get_repeated_fee_history array_length repeated number_text
    rewards_of
fixed_clipped newest n price h =
    let beyond : leb (newest + 1) n ≡ true = ground (arith, h) in
    ap
      (λ b.
        fixed_history (if b then (some 1, some 1) else (some n, some (newest + 1 - n))) none price)
      beyond

module _ (M : MirrorNode) (C : Config) where
  history_clipped :
      (t n newest latest : ℕ) (price : Text)
      → newest < n
      → gas_price M C t ≡ ok price
      → history_of M C true t (some n) (some newest) (some latest) none ≡ ok (one_block 1 price)
  unfolding history_of is_zero_count
  history_clipped t n newest latest price h p =
      let asked : is_zero_count (some n) ≡ false = ground (arith, h) in
      ap
        (λ b. if b then ok zero_block_count else (do
          fee ← gas_price M C t
          fixed_history (fixed_range (some newest) (some n)) none fee))
        asked
      ∙ ap (λ r. (do fee ← r; fixed_history (fixed_range (some newest) (some n)) none fee)) p
      ∙ fixed_clipped newest n price h

  between_clipped :
      (m t n newest latest : ℕ) (price : Text)
      → n ≤ m
      → newest < n
      → newest ≤ latest
      → gas_price M C t ≡ ok price
      → answer_between M C true m t (some n) (some newest) (some latest) none
        ≡ ok (history (one_block 1 price))
  unfolding answer_between
  between_clipped m t n newest latest price limit beyond seen p =
      let known : ltb latest newest ≡ false = ground (arith, seen) in
      ap
        (λ b. if b then ok (request_beyond_head_block newest latest) else (do
          h ← history_of M C true t (cap_count m (some n)) (some newest) (some latest) none
          ok (history h)))
        known
      ∙ ap (λ c. (do h ← history_of M C true t c (some newest) (some latest) none; ok (history h)))
          (cap_within m n limit)
      ∙ ap (λ r. (do h ← r; ok (history h))) (history_clipped t n newest latest price beyond p)

  -- With fixed fees, a caller that asks for more blocks than there are up to the newest, but not more
  -- than the limit, gets the fees of the block 1 alone, whatever the newest block is. The newest block
  -- is known and the gas price is found.
  pub fee_history-one_block :
      (m t : ℕ) (newest_block : Tag) (n newest latest : ℕ) (price : Text)
      → n ≤ m
      → newest < n
      → newest ≤ latest
      → translate_block_tag M C t (text block_latest) ≡ ok (some latest)
      → newest_number M C (t + 1) (some latest) newest_block ≡ ok (some newest)
      → gas_price M C (t + 2) ≡ ok price
      → fee_history M C true m t (some n) newest_block none ≡ ok (history (one_block 1 price))
  unfolding fee_history too_many_percentiles
  fee_history-one_block m t newest_block n newest latest price limit beyond seen head asked p =
      ap
        (λ r.
          elim (do
            l ← r
            b ← newest_number M C (t + 1) l newest_block
            answer_between M C true m (t + 2) (some n) b l none) [
              | ok a ↦ ok a
              | err x ↦ ok (history empty_history)
            ])
        head
      ∙ ap
          (λ r. elim (do b ← r; answer_between M C true m (t + 2) (some n) b (some latest) none) [
            | ok a ↦ ok a
            | err x ↦ ok (history empty_history)
          ])
          asked
      ∙ ap (λ r. elim r [ ok a ↦ ok a | err x ↦ ok (history empty_history) ])
          (between_clipped m (t + 2) n newest latest price limit beyond seen p)

  -- Where the fees are not fixed, a caller that asks for more blocks than there are up to the newest,
  -- and for rewards, gets the used ratios of every block up to the newest, but the rewards have a row
  -- for every block that was asked for, which are more rows than there are blocks.
  pub get_fee_history-rows :
      (t n newest latest p : ℕ) (ps : List ℕ)
      → newest + 1 < n
      → (h : IFeeHistory) × (rows : List (List Text)) × (ratios : List Text) × (get_fee_history M C
            t
            (some n)
            (some newest)
            (some latest)
            (some (p ∷ ps))
          ≡ ok h)
        × (h.reward ≡ some rows)
        × (h.gas_used_ratio ≡ some ratios)
        × (length ratios ≡ newest + 1)
        × (length rows ≡ n)
        × (length ratios < length rows)
  unfolding get_fee_history history_from oldest_of blocks_of rewards_of array_length
  get_fee_history-rows t n newest latest p ps h =
      let rows = repeated n (repeated (length (p ∷ ps)) zero_hex) in
      let ratios = repeated (newest + 1 - (newest + 1 - n)) default_gas_used_ratio in
      let many = length-repeated n (repeated (length (p ∷ ps)) zero_hex) in
      let few : length ratios ≡ newest + 1 =
        length-repeated (newest + 1 - (newest + 1 - n)) default_gas_used_ratio ∙ omega (arith, h) in
      (
        history_from M C t (some (newest + 1 - n)) (some newest) (some latest) (some rows),
        rows,
        ratios,
        refl,
        refl,
        refl,
        few,
        many,
        omega (arith, h, few, many),
      )
