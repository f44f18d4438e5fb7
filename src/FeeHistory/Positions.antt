-- ===== src/FeeHistory/Positions.antt =====
-- Which fee stands where in the answer that asks for the fees of the blocks.
use mpcq_json_rpc_relay.Prelude.{
  ℕ, zero, suc, ◌+◌, ◌-◌, ◌*◌, ◌<◌, ◌≡◌, refl, ap, sym, ◌∙◌, inl, inr, Option, none, some, List, [],
  ◌∷◌, ◌++◌, Text, length, length-append, if◌then◌else◌, ltb, arith, Bool-cases, subst,
}
use mpcq_json_rpc_relay.Prelude.Results.{Result, ok, err, ◌>>=◌}
use mpcq_json_rpc_relay.Formatters.Hex.{number_to_0x}
use mpcq_json_rpc_relay.Common.{MirrorNode, Config, Thrown}
use mpcq_json_rpc_relay.FeeHistory.{
  IFeeHistory, zero_hex, array_length, fee_text, history_from, rewards_of, repeated,
  default_gas_used_ratio, number_text, exceeds, oldest_of, blocks_of, last, push_truthy,
  get_fee_by_block_number, fees_from, fees_between, next_base_fee, get_fee_history,
}

abbrev pub at : List Text → ℕ → Option Text
at [] i = none
at (x ∷ xs) zero = some x
at (x ∷ xs) (suc i) = at xs i

at-append : (xs ys : List Text) (i : ℕ) → i < length xs → at (xs ++ ys) i ≡ at xs i
at-append [] ys i h = absurd (ground arith)
at-append (x ∷ xs) ys zero h = refl
at-append (x ∷ xs) ys (suc i) h = at-append xs ys i (omega (arith, h))

at-end : (xs : List Text) (y : Text) → at (xs ++ y ∷ []) (length xs) ≡ some y
at-end [] y = refl
at-end (x ∷ xs) y = at-end xs y

pub length-repeated {ℓ} : {A : Type ℓ} (n : ℕ) (x : A) → length (repeated n x) ≡ n
unfolding repeated
length-repeated zero x = refl
length-repeated (suc n) x = ap suc (length-repeated n x)

push_fee :
    (fees : List Text) (n : ℕ)
    → push_truthy fees (some (number_to_0x n)) ≡ fees ++ number_to_0x n ∷ []
unfolding push_truthy number_to_0x
push_fee fees n = refl

fee_text_number : (r : Result Thrown ℕ) → (k : ℕ) × (fee_text r ≡ number_to_0x k)
unfolding fee_text
fee_text_number (ok fee) = (fee, refl)
fee_text_number (err e) = (0, refl)

rewards_of-number :
    (n : ℕ) (percentiles : Option (List ℕ))
    → (rewards : Option (List (List Text))) × (rewards_of (some n) percentiles ≡ ok rewards)
unfolding rewards_of array_length
rewards_of-number n none = (none, refl)
rewards_of-number n (some []) = (none, refl)
rewards_of-number n (some (p ∷ ps)) =
    (some (repeated n (repeated (length (p ∷ ps)) zero_hex)), refl)

module _ (M : MirrorNode) (C : Config) where
  -- A fee is the text of a number.
  fee_number : (t n : ℕ) → (k : ℕ) × (get_fee_by_block_number M C t n ≡ number_to_0x k)
  unfolding get_fee_by_block_number
  fee_number t n = fee_text_number _

  pub length-fees_from : (t n k : ℕ) → length (fees_from M C t n k) ≡ k
  unfolding fees_from
  length-fees_from t n zero = refl
  length-fees_from t n (suc k) = ap suc (length-fees_from (t + 2) (suc n) k)

  same_fee :
      (t u n m : ℕ)
      → t ≡ u
      → n ≡ m
      → some (get_fee_by_block_number M C t n) ≡ some (get_fee_by_block_number M C u m)
  same_fee t u n m e f = cc (e, f)

  at-fees_from :
      (t n k i : ℕ)
      → i < k
      → at (fees_from M C t n k) i ≡ some (get_fee_by_block_number M C (t + 2 * i) (n + i))
  unfolding fees_from
  at-fees_from t n zero i h = absurd (omega (arith, h))
  at-fees_from t n (suc k) zero h = same_fee t (t + 2 * 0) n (n + 0) (omega arith) (omega arith)
  at-fees_from t n (suc k) (suc i) h =
      at-fees_from (t + 2) (suc n) k i (omega (arith, h))
      ∙ same_fee (t + 2 + 2 * i) (t + 2 * suc i) (suc n + i) (n + suc i) (omega arith) (omega arith)

  last-fees_from :
      (t n k : ℕ)
      → last (fees_from M C t n (suc k)) ≡ some (get_fee_by_block_number M C (t + 2 * k) (n + k))
  unfolding fees_from last
  last-fees_from t n zero = same_fee t (t + 2 * 0) n (n + 0) (omega arith) (omega arith)
  last-fees_from t n (suc k) =
      last-fees_from (t + 2) (suc n) k
      ∙ same_fee (t + 2 + 2 * k) (t + 2 * suc k) (suc n + k) (n + suc k) (omega arith) (omega arith)

  push-fee :
      (fees : List Text) (t n : ℕ)
      → push_truthy fees (some (get_fee_by_block_number M C t n))
        ≡ fees ++ get_fee_by_block_number M C t n ∷ []
  push-fee fees t n =
      let f = fee_number t n in
      ap (λ fee. push_truthy fees (some fee)) f.1
      ∙ push_fee fees f.0
      ∙ ap (λ fee. fees ++ fee ∷ []) (sym f.1)

  -- The fee after the last: of the next block, or of the newest again when it is the head.
  abbrev pub following : ℕ → ℕ → ℕ → ℕ → Text
  following t blocks newest latest =
      if ltb newest latest
      then get_fee_by_block_number M C (t + 2 * blocks) (newest + 1)
      else get_fee_by_block_number M C (t + 2 * (blocks - 1)) newest

  next_lem :
      (t k oldest newest latest : ℕ)
      → oldest + k ≡ newest
      → next_base_fee M C
          (t + 2 * suc k)
          (some newest)
          (some latest)
          (fees_from M C t oldest (suc k))
        ≡ some (following t (suc k) newest latest)
  unfolding next_base_fee exceeds
  next_lem t k oldest newest latest e = elim (Bool-cases (ltb newest latest)) [
    | inl h ↦ rw h refl
    | inr h ↦ rw h (
        last-fees_from t oldest k
        ∙ same_fee (t + 2 * k) (t + 2 * (suc k - 1)) (oldest + k) newest (omega arith) e)
  ]

  -- The fees of an answer about blocks that end with the newest: one for each block and one more.
  pub record IsFeeHistory (h : IFeeHistory) (t blocks newest latest : ℕ) : Type 0 where
    pub fees : List Text
    pub base : h.base_fee_per_gas ≡ some fees
    pub count : length fees ≡ blocks + 1
    pub each :
        (i : ℕ)
        → i < blocks
        → at fees i ≡ some (get_fee_by_block_number M C (t + 2 * i) (newest + 1 - blocks + i))
    pub next : at fees blocks ≡ some (following t blocks newest latest)
    pub ratios : h.gas_used_ratio ≡ some (repeated blocks default_gas_used_ratio)
    pub oldest : h.oldest_block ≡ number_to_0x (newest + 1 - blocks)

  push_following :
      (fees : List Text) (t blocks newest latest : ℕ)
      → push_truthy fees (some (following t blocks newest latest))
        ≡ fees ++ following t blocks newest latest ∷ []
  push_following fees t blocks newest latest = elim (Bool-cases (ltb newest latest)) [
    | inl h ↦ rw h (push-fee fees (t + 2 * blocks) (newest + 1))
    | inr h ↦ rw h (push-fee fees (t + 2 * (blocks - 1)) newest)
  ]

  count_blocks : (k oldest newest : ℕ) → oldest + k ≡ newest → newest + 1 - oldest ≡ suc k
  count_blocks k oldest newest e = omega (arith, e)

  pushed :
      (t k oldest newest latest : ℕ)
      → oldest + k ≡ newest
      → push_truthy (fees_from M C t oldest (suc k)) (
          next_base_fee M C
            (t + 2 * suc k)
            (some newest)
            (some latest)
            (fees_from M C t oldest (suc k)))
        ≡ fees_from M C t oldest (suc k) ++ following t (suc k) newest latest ∷ []
  pushed t k oldest newest latest e =
      let fees = fees_from M C t oldest (suc k) in
      ap (push_truthy fees) (next_lem t k oldest newest latest e)
      ∙ push_following fees t (suc k) newest latest

  between :
      (t k oldest newest latest : ℕ)
      → oldest + k ≡ newest
      → push_truthy (fees_between M C t (some oldest) (some newest)) (
          next_base_fee M C
            (t + 2 * blocks_of (some oldest) (some newest))
            (some newest)
            (some latest)
            (fees_between M C t (some oldest) (some newest)))
        ≡ fees_from M C t oldest (suc k) ++ following t (suc k) newest latest ∷ []
  unfolding fees_between blocks_of
  between t k oldest newest latest e =
      ap
        (λ b.
          push_truthy (fees_from M C t oldest b)
            (next_base_fee M C (t + 2 * b) (some newest) (some latest) (fees_from M C t oldest b)))
        (count_blocks k oldest newest e)
      ∙ pushed t k oldest newest latest e

  from_oldest :
      (t k oldest newest latest : ℕ) (rewards : Option (List (List Text)))
      → oldest + k ≡ newest
      → IsFeeHistory
          (history_from M C t (some oldest) (some newest) (some latest) rewards)
          t
          (suc k)
          newest
          latest
  unfolding history_from number_text blocks_of
  from_oldest t k oldest newest latest rewards e =
      let start = fees_from M C t oldest (suc k) in
      let len = length-fees_from t oldest (suc k) in
      let first : oldest ≡ newest + 1 - suc k = omega (arith, e) in
      record {
        fees = start ++ following t (suc k) newest latest ∷ [];
        base = ap some (between t k oldest newest latest e);
        count = length-append start (following t (suc k) newest latest ∷ []) ∙ ap (λ n. n + 1) len;
        each = λ i h.
            at-append start (following t (suc k) newest latest ∷ []) i (omega (arith, h, len))
            ∙ at-fees_from t oldest (suc k) i h
            ∙ same_fee (t + 2 * i) (t + 2 * i) (oldest + i) (newest + 1 - suc k + i) refl
                (omega (arith, e));
        next =
            ap (at (start ++ following t (suc k) newest latest ∷ [])) (sym len)
            ∙ at-end start (following t (suc k) newest latest);
        ratios =
            ap (λ b. some (repeated b default_gas_used_ratio)) (count_blocks k oldest newest e);
        oldest = ap number_to_0x first;
      }

  -- Where the fees are not fixed, the history of a number of blocks that is not 0 is about as many
  -- as asked for, or all up to the newest: the fee of each at its place, then the fee of the block
  -- after them or, when the newest is the head, its own again.
  pub get_fee_history-IsFeeHistory :
      (t n newest latest : ℕ) (percentiles : Option (List ℕ))
      → (h : IFeeHistory) × (get_fee_history M C t
            (some (suc n))
            (some newest)
            (some latest)
            percentiles
          ≡ ok h)
        × IsFeeHistory h t (if ltb newest n then newest + 1 else suc n) newest latest
  unfolding get_fee_history oldest_of
  get_fee_history-IsFeeHistory t n newest latest percentiles =
      let oldest = newest + 1 - suc n in
      let blocks = if ltb newest n then newest + 1 else suc n in
      let r = rewards_of-number (suc n) percentiles in
      let h = history_from M C t (some oldest) (some newest) (some latest) r.0 in
      let all : suc (newest - oldest) ≡ blocks = ground arith in
      (
        h,
        ap
            (λ rewards. (do
              known ← rewards
              ok (history_from M C t (some oldest) (some newest) (some latest) known)))
            r.1,
        subst (λ b. IsFeeHistory h t b newest latest) all
            (from_oldest t (newest - oldest) oldest newest latest r.0 (omega arith)),
      )
