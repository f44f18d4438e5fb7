-- ===== src/FeeHistory/Bounds.antt =====
-- How long the answers are, whatever is asked.
use mpcq_json_rpc_relay.Prelude.{
  ℕ, ◌+◌, ◌-◌, ◌*◌, ◌<◌, ◌≤◌, ◌≡◌, ap, ◌∙◌, inl, inr, Bool, true, false, Option, none, some, List,
  [], ◌∷◌, Text, length, length-append, if◌then◌else◌, ltb, leb, arith, Bool-cases,
}
use mpcq_json_rpc_relay.Prelude.Results.{Result, ok, err, ◌>>=◌}
use mpcq_json_rpc_relay.Common.{Tag, text, MirrorNode, Config, Thrown, block_latest}
use mpcq_json_rpc_relay.Common.Blocks.{translate_block_tag}
use mpcq_json_rpc_relay.Common.Fees.{gas_price}
use mpcq_json_rpc_relay.FeeHistory.{
  IFeeHistory, rewards_of, Answer, history, request_beyond_head_block, repeated, array_length,
  exceeds, cap_count, oldest_of, blocks_of, push_truthy, get_repeated_fee_history, fees_between,
  next_base_fee, history_from, get_fee_history, fixed_range, fixed_history, is_zero_count,
  newest_number, history_of, answer_between, too_many_percentiles, fee_history, empty_history,
}
use mpcq_json_rpc_relay.FeeHistory.Positions.{length-repeated, length-fees_from}

-- An answer has at most so many fees.
abbrev pub IsAtMost : ℕ → Option (List Text) → Type 0
IsAtMost m none = Unit
IsAtMost m (some fees) = length fees ≤ m

-- No answer at all, or one of at most so many fees.
abbrev pub HasAtMost : ℕ → Result Thrown IFeeHistory → Type 0
HasAtMost m (err e) = Unit
HasAtMost m (ok h) = IsAtMost m h.base_fee_per_gas

abbrev pub AnswersAtMost : ℕ → Result Thrown Answer → Type 0
AnswersAtMost m (err e) = Unit
AnswersAtMost m (ok (history h)) = IsAtMost m h.base_fee_per_gas
AnswersAtMost m (ok (request_beyond_head_block newest latest)) = Unit

cap_count_le : (m : ℕ) (count : Option ℕ) → exceeds (cap_count m count) (some m) ≡ false
unfolding cap_count exceeds
cap_count_le m count = elim (Bool-cases (exceeds count (some m))) [
  | inl e ↦ ap (λ b. exceeds (if b then some m else count) (some m)) e ∙ ground arith
  | inr e ↦ ap (λ b. exceeds (if b then some m else count) (some m)) e ∙ e
]

blocks_le :
    (m : ℕ) (newest o : Option ℕ)
    → exceeds o (some m) ≡ false
    → blocks_of (oldest_of newest o) newest ≤ m
unfolding exceeds blocks_of oldest_of
blocks_le m none o e = ground arith
blocks_le m (some n) none e = ground arith
blocks_le m (some n) (some k) e = ground arith

length-push_truthy :
    (fees : List Text) (o : Option Text) → length (push_truthy fees o) ≤ length fees + 1
unfolding push_truthy
length-push_truthy fees none = ground arith
length-push_truthy fees (some []) = ground arith
length-push_truthy fees (some (c ∷ fee)) = ground (arith, length-append fees ((c ∷ fee) ∷ []))

-- What holds of both branches holds of the conditional.
if_both {ℓ κ} :
    {A : Type ℓ} (P : A → Type κ) (b : Bool) {x y : A} → P x → P y → P (if b then x else y)
if_both P true h k = h
if_both P false h k = k

then_le {ℓ} :
    {A : Type ℓ} (m : ℕ) (r : Result Thrown A) (f : A → Result Thrown IFeeHistory)
    → ((a : A) → HasAtMost m (f a))
    → HasAtMost m (do a ← r; f a)
then_le m (ok a) f h = h a
then_le m (err e) f h = tt

answered_le :
    (m : ℕ) (r : Result Thrown IFeeHistory)
    → HasAtMost m r
    → AnswersAtMost m (do h ← r; ok (history h))
answered_le m (ok h) k = k
answered_le m (err e) k = tt

repeated_le :
    (m : ℕ) (count oldest : Option ℕ) (percentiles : Option (List ℕ)) (fee : Text)
    → exceeds count (some m) ≡ false
    → HasAtMost (m + 1) (get_repeated_fee_history count oldest percentiles fee)
unfolding get_repeated_fee_history array_length exceeds
repeated_le m none oldest percentiles fee h = tt
repeated_le m (some n) oldest percentiles fee h =
    then_le (m + 1) (rewards_of (some n) percentiles) _ (λ rewards.
      ground (arith, h, length-append (repeated n fee) (fee ∷ []), length-repeated n fee))

fixed_le :
    (m : ℕ) (newest count : Option ℕ)
    → 0 < m
    → exceeds count (some m) ≡ false
    → exceeds (fixed_range newest count).0 (some m) ≡ false
unfolding fixed_range exceeds
fixed_le m none none h e = e
fixed_le m none (some k) h e = e
fixed_le m (some n) none h e = e
fixed_le m (some n) (some k) h e =
    if_both (λ (p : Option ℕ × Option ℕ). exceeds p.0 (some m) ≡ false) (leb (n + 1) k)
      (ground arith) e

fixed_history_le :
    (m : ℕ) (range : Option ℕ × Option ℕ) (percentiles : Option (List ℕ)) (fee : Text)
    → exceeds range.0 (some m) ≡ false
    → HasAtMost (m + 1) (fixed_history range percentiles fee)
unfolding fixed_history
fixed_history_le m range percentiles fee h = repeated_le m range.0 range.1 percentiles fee h

caught_le :
    (m : ℕ) (r : Result Thrown Answer)
    → AnswersAtMost m r
    → AnswersAtMost m (elim r [ ok a ↦ ok a | err e ↦ ok (history empty_history) ])
caught_le m (ok a) h = h
caught_le m (err e) h = omega arith

next_le {ℓ} :
    {A : Type ℓ} (m : ℕ) (r : Result Thrown A) (f : A → Result Thrown Answer)
    → ((a : A) → AnswersAtMost m (f a))
    → AnswersAtMost m (do a ← r; f a)
next_le m (ok a) f h = h a
next_le m (err e) f h = tt

module _ (M : MirrorNode) (C : Config) where
  length-fees_between :
      (t : ℕ) (oldest newest : Option ℕ)
      → length (fees_between M C t oldest newest) ≤ blocks_of oldest newest
  unfolding fees_between blocks_of
  length-fees_between t none newest = ground arith
  length-fees_between t (some n) none = ground (arith, length-fees_from M C t n 0)
  length-fees_between t (some n) (some k) = ground (arith, length-fees_from M C t n (k + 1 - n))

  get_fee_history_le :
      (m t : ℕ) (count newest latest : Option ℕ) (percentiles : Option (List ℕ))
      → exceeds count (some m) ≡ false
      → HasAtMost (m + 1) (get_fee_history M C t count newest latest percentiles)
  unfolding get_fee_history history_from
  get_fee_history_le m t count newest latest percentiles e =
      let oldest = oldest_of newest count in
      then_le (m + 1) (rewards_of count percentiles) _ (λ rewards. omega (
        arith,
        blocks_le m newest count e,
        length-fees_between t oldest newest,
        length-push_truthy (fees_between M C t oldest newest) (
            next_base_fee M C (t + 2 * blocks_of oldest newest) newest latest
              (fees_between M C t oldest newest)),
      ))

  history_of_le :
      (m : ℕ) (fixed : Bool) (t : ℕ) (count newest latest : Option ℕ)
      (percentiles : Option (List ℕ))
      → 0 < m
      → exceeds count (some m) ≡ false
      → HasAtMost (m + 1) (history_of M C fixed t count newest latest percentiles)
  unfolding history_of
  history_of_le m fixed t count newest latest percentiles h e =
      if_both (HasAtMost (m + 1)) (is_zero_count count) tt (
        if_both (HasAtMost (m + 1)) fixed
          (then_le (m + 1) (gas_price M C t) _ (λ fee.
            fixed_history_le m (fixed_range newest count) percentiles fee
              (fixed_le m newest count h e)))
          (get_fee_history_le m t count newest latest percentiles e))

  answer_between_le :
      (m : ℕ) (fixed : Bool) (t : ℕ) (count newest latest : Option ℕ)
      (percentiles : Option (List ℕ))
      → 0 < m
      → AnswersAtMost (m + 1) (answer_between M C fixed m t count newest latest percentiles)
  unfolding answer_between
  answer_between_le m fixed t count (some newest) (some latest) percentiles h =
      if_both (AnswersAtMost (m + 1)) (ltb latest newest) tt (
        answered_le (m + 1) _ (
          history_of_le m fixed t (cap_count m count) (some newest) (some latest) percentiles h
            (cap_count_le m count)))
  answer_between_le m fixed t count (some newest) none percentiles h = answered_le (m + 1) _ (
      history_of_le m fixed t (cap_count m count) (some newest) none percentiles h
        (cap_count_le m count))
  answer_between_le m fixed t count none latest percentiles h =
      answered_le (m + 1) _ (
        history_of_le m fixed t (cap_count m count) none latest percentiles h
          (cap_count_le m count))

  -- Whatever number of blocks is asked for, be it `NaN` too, the answer has
  -- at most one fee more than the limit, which is not 0; also where the fees are fixed, and on errors.
  pub fee_history-AnswersAtMost :
      (fixed : Bool) (m t : ℕ) (count : Option ℕ) (newest_block : Tag)
      (percentiles : Option (List ℕ))
      → 0 < m
      → AnswersAtMost (m + 1) (fee_history M C fixed m t count newest_block percentiles)
  unfolding fee_history
  fee_history-AnswersAtMost fixed m t count newest_block percentiles h =
      if_both (AnswersAtMost (m + 1)) (too_many_percentiles percentiles) tt (
        caught_le (m + 1) _ (
          next_le (m + 1) (translate_block_tag M C t (text block_latest)) _ (λ latest.
            next_le (m + 1) (newest_number M C (t + 1) latest newest_block) _
              (λ newest. answer_between_le m fixed (t + 2) count newest latest percentiles h))))
