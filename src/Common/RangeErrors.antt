-- ===== src/Common/RangeErrors.antt =====
-- The errors of the checks of block ranges, and when they are thrown.
use mpcq_json_rpc_relay.Prelude.{
  ℕ, suc, ◌≡◌, inl, inr, refl, Bool, true, false, some, List, [], ◌∷◌, ◌++◌, Text, text_eq, arith,
  Bool-cases, ltb, not, ◌||◌, ◌/◌, ◌%◌,
}
use mpcq_json_rpc_relay.Prelude.Results.{ok, throw_if}
use mpcq_json_rpc_relay.Formatters.Hex.{number_to_0x, to_hex, parse_hex-to_hex, digit, hex_digits}
use mpcq_json_rpc_relay.Common.{
  missing_from_block_param, invalid_block_range, json_rpc, Tag, absent, text, block_number,
  MirrorNodeBlock, MirrorNode, Config, number_of, number_of_text, decimal_from, is_falsy,
  block_tag_is_latest_or_pending,
}
use mpcq_json_rpc_relay.Common.Blocks.{get_latest_block_number}
use mpcq_json_rpc_relay.Common.Ranges.{
  check_from_block, same_number, explicit_number, no_number, number_exceeds, validate_block_range,
}

append-cons : (xs : Text) (y : ℕ) → (c : ℕ) × (s : Text) × (xs ++ y ∷ [] ≡ c ∷ s)
append-cons [] y = (y, [], refl)
append-cons (x ∷ xs) y = (x, xs ++ y ∷ [], refl)

to_hex-cons : (n : ℕ) → (c : ℕ) × (s : Text) × (to_hex n ≡ c ∷ s)
unfolding to_hex hex_digits
to_hex-cons n = elim (Bool-cases (ltb n 16)) [
  | inl low ↦ (digit n, [], ground (arith, low))
  | inr high ↦
      let (c, s, e) = append-cons (hex_digits n (n / 16)) (digit (n % 16)) in
      (c, s, ground (arith, high, e))
]

-- `Number` reads what `numberTo0x` prints.
pub number_of_text-number_to_0x : (n : ℕ) → number_of_text (number_to_0x n) ≡ some n
unfolding number_of_text number_to_0x
number_of_text-number_to_0x n =
    let (c, s, e) = to_hex-cons n in rw e (ground (arith, parse_hex-to_hex n, e))

or_true : (a b : Bool) → (a || b || true) ≡ true
or_true true b = refl
or_true false true = refl
or_true false false = refl

-- A number other than 0 is truthy.
given : (tag : Tag) (n : ℕ) → explicit_number tag ≡ some (some (suc n)) → is_falsy tag ≡ false
unfolding explicit_number is_falsy number_of number_of_text decimal_from text_eq
given absent n h = ground arith
given (block_number k) n h = ground arith
given (text []) n h = ground arith
given (text (c ∷ s)) n h = refl

module _ (M : MirrorNode) (C : Config) (t : ℕ) (latest : MirrorNodeBlock)
    (older : List MirrorNodeBlock)
    (fetched : M.get_latest_block t ≡ ok (some (latest ∷ older))) where
  get_latest_block_number_lem : get_latest_block_number M C t ≡ ok (number_to_0x latest.number)
  unfolding get_latest_block_number
  get_latest_block_number_lem = rw fetched refl

  -- The check of `fromBlock` as a condition on the two tags and the latest block.
  abbrev pub may_miss_from : Tag → Tag → Bool
  may_miss_from from_block to_block =
      block_tag_is_latest_or_pending to_block
      || same_number (number_of to_block) (some latest.number)
      || not (is_falsy from_block)

  -- When the latest block is known, a range is refused for a missing `fromBlock` exactly when
  -- `toBlock` is neither a tag of the latest block nor its number and `fromBlock` is falsy.
  pub check_from_block_lem :
      (from_block to_block : Tag)
      → check_from_block M C t from_block to_block
        ≡ throw_if (not (may_miss_from from_block to_block)) (json_rpc missing_from_block_param)
  unfolding check_from_block
  check_from_block_lem from_block to_block =
      elim (Bool-cases (block_tag_is_latest_or_pending to_block)) [
        | inl e ↦ rw e refl
        | inr e ↦
            rw (e, get_latest_block_number_lem, number_of_text-number_to_0x latest.number)
              (elim (Bool-cases (same_number (number_of to_block) (some latest.number))) [
                | inl same ↦ rw same refl
                | inr differ ↦ ground (arith, differ)
              ])
      ]

  -- A range of two numbers other than 0 is refused with INVALID_BLOCK_RANGE exactly when `fromBlock`
  -- is past `toBlock`; no block but the latest is asked for.
  pub validate_block_range_lem :
      (from_block to_block : Tag) (n m : ℕ)
      → explicit_number from_block ≡ some (some (suc n))
      → explicit_number to_block ≡ some (some (suc m))
      → validate_block_range M C t from_block to_block
        ≡ throw_if (ltb m n) (json_rpc invalid_block_range)
  unfolding validate_block_range no_number number_exceeds
  validate_block_range_lem from_block to_block n m hn hm =
      rw (hn, hm, check_from_block_lem, given from_block n hn, or_true) (ground arith)
