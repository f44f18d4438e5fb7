-- ===== src/Formatters/Amounts.antt =====
-- `tinybarsToWeibars` and `weibarHexToTinyBarInt` of formatters.ts, with the constants that they
-- use (packages/relay/src/lib/constants.ts).
use mpcq_json_rpc_relay.Prelude.{
  ℕ, suc, ◌+◌, ◌-◌, ◌*◌, ◌/◌, ◌≤◌, ◌<◌, ◌≡◌, ap, ◌∙◌, true, Option, none, some, Bool, ltb,
  if◌then◌else◌, arith, zero, ◌%◌, ◌||◌, ◌==◌, ◌&&◌, ◌⊎◌, ◌↔◌,
}
use mpcq_json_rpc_relay.Prelude.Int.{ℤ, pos, negsuc}

abbrev pub tinybar_to_weibar_coef : ℕ
tinybar_to_weibar_coef = 10_000_000_000

abbrev pub total_supply_tinybars : ℕ
total_supply_tinybars = 5_000_000_000_000_000_000

-- The two errors that are thrown, and the value that is returned: null is `none`.
pub data Converted : Type 0 where
  invalid_value above_total_supply : Converted
  ok : Option ℤ → Converted

unfoldable pub tinybars_to_weibars : Option ℤ → Bool → Converted
tinybars_to_weibars none allow_negative_values = ok none
tinybars_to_weibars (some (negsuc n)) allow_negative_values =
    if allow_negative_values then ok (some (negsuc n)) else invalid_value
tinybars_to_weibars (some (pos n)) allow_negative_values =
    if ltb total_supply_tinybars n
    then above_total_supply
    else ok (some (pos (n * tinybar_to_weibar_coef)))

-- The argument of `weibarHexToTinyBarInt`: the text `0x`, or what `BigInt(value)` gives.
pub data WeibarValue : Type 0 where
  empty_hex : WeibarValue
  amount : ℤ → WeibarValue

-- The multiple of `p` that is nearest to `n`; of two that are as near, that of an even number.
unfoldable pub nearest_multiple : ℕ → ℕ → ℕ
nearest_multiple p n =
    let q = n / p in
    let r = n % p in if ltb (2 * r) p || ((2 * r == p) && (q % 2 == 0)) then q * p else (q + 1) * p

abbrev pub exact_below : ℕ
exact_below = 9007199254740992

-- The double with 53 digits in base 2 that is nearest to `n`, of those that are multiples of `p`, of
-- `2 * p` and so on.
unfoldable pub double_from : ℕ → ℕ → ℕ → ℕ
unfolding nearest_multiple
double_from zero p n = nearest_multiple p n
double_from (suc fuel) p n =
    let rest = double_from fuel (2 * p) n in
    if ltb (n / p) exact_below then nearest_multiple p n else rest

-- `Number` of a BigInt below 2 ^ 1024, above which it is `Infinity`.
unfoldable pub number_of_big_int : ℕ → ℕ
unfolding double_from
number_of_big_int n = double_from 971 1 n

nearest_multiple-one : (n : ℕ) → nearest_multiple 1 n ≡ n
unfolding nearest_multiple
nearest_multiple-one n = ground arith

double_from-exact : (fuel n : ℕ) → n < exact_below → double_from fuel 1 n ≡ n
unfolding double_from
double_from-exact zero n h = nearest_multiple-one n
double_from-exact (suc fuel) n h =
    let small : ltb (n / 1) exact_below ≡ true = ground (arith, h) in
    ap (λ b. if b then nearest_multiple 1 n else double_from fuel 2 n) small
    ∙ nearest_multiple-one n

-- Up to 2 ^ 53 the number is the same.
pub number_of_big_int-exact : (n : ℕ) → n < exact_below → number_of_big_int n ≡ n
unfolding number_of_big_int
number_of_big_int-exact n h = double_from-exact 971 n h

-- Division of a BigInt drops the fraction, so it rounds towards 0.
unfoldable pub weibar_hex_to_tiny_bar_int : WeibarValue → ℤ
weibar_hex_to_tiny_bar_int empty_hex = pos 0
weibar_hex_to_tiny_bar_int (amount (pos wei)) =
    let tinybar_value = wei / tinybar_to_weibar_coef in
    if (tinybar_value == 0) && ltb 0 wei then pos 1 else pos (number_of_big_int tinybar_value)
weibar_hex_to_tiny_bar_int (amount (negsuc n)) =
    let tinybar_value = suc n / tinybar_to_weibar_coef in
    if tinybar_value == 0 then pos 0 else negsuc (number_of_big_int tinybar_value - 1)

-- The amount in tinybars that is meant.
abbrev rounded : ℕ → ℕ
rounded wei = let q = wei / tinybar_to_weibar_coef in if (q == 0) && ltb 0 wei then 1 else q

rounded_lem :
    (wei : ℕ)
    → (wei < (rounded wei + 1) * tinybar_to_weibar_coef)
      × ((rounded wei * tinybar_to_weibar_coef ≤ wei)
          ⊎ ((rounded wei ≡ 1) × (wei < tinybar_to_weibar_coef)))
      × ((rounded wei ≡ 0) ↔ (wei ≡ 0))
rounded_lem wei = (ground arith, ground arith, ground arith)

pos_of : (b : Bool) (q : ℕ) → (if b then pos 1 else pos q) ≡ pos (if b then 1 else q)
pos_of b q = ground arith

multiple_lem : (n : ℕ) → rounded (n * tinybar_to_weibar_coef) ≡ n
multiple_lem n = ground arith

-- The conversion of an amount that is exact as a number.
converted :
    (wei : ℕ)
    → wei < exact_below * tinybar_to_weibar_coef
    → weibar_hex_to_tiny_bar_int (amount (pos wei)) ≡ pos (rounded wei)
unfolding weibar_hex_to_tiny_bar_int
converted wei h =
    let q = wei / tinybar_to_weibar_coef in
    let small : q < exact_below = omega (arith, h) in
    ap (λ n. if (q == 0) && ltb 0 wei then pos 1 else pos n) (number_of_big_int-exact q small)
    ∙ pos_of ((q == 0) && ltb 0 wei) q

-- An amount of tinybars below 2 ^ 53 comes back from weibars as it was.
pub tinybars_round_trip :
    (n : ℕ) (allow : Bool)
    → n < exact_below
    → (w : ℤ) × (tinybars_to_weibars (some (pos n)) allow ≡ ok (some w))
      × (weibar_hex_to_tiny_bar_int (amount w) ≡ pos n)
unfolding tinybars_to_weibars
tinybars_round_trip n allow h = (
  pos (n * tinybar_to_weibar_coef),
  ground (arith, h),
  converted (n * tinybar_to_weibar_coef) (omega (arith, h)) ∙ ap pos (multiple_lem n),
)

-- An amount below 2 ^ 53 tinybars, which are about 90 million HBAR, is rounded down from weibars,
-- except that less than one tinybar counts as one: only nothing becomes nothing. Above, the whole
-- number of tinybars need not be a number of JavaScript.
pub weibar_rounding :
    (wei : ℕ)
    → wei < exact_below * tinybar_to_weibar_coef
    → (t : ℕ) × (weibar_hex_to_tiny_bar_int (amount (pos wei)) ≡ pos t)
      × (wei < (t + 1) * tinybar_to_weibar_coef)
      × ((t * tinybar_to_weibar_coef ≤ wei) ⊎ ((t ≡ 1) × (wei < tinybar_to_weibar_coef)))
      × ((t ≡ 0) ↔ (wei ≡ 0))
weibar_rounding wei h =
    let (below, above, nothing) = rounded_lem wei in
    (rounded wei, converted wei h, below, above, nothing)
