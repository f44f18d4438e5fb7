-- ===== src/Formatters/Int64.antt =====
-- `nanOrNumberInt64To0x` of formatters.ts: negative numbers in two's complement of 64 bits.
use mpcq_json_rpc_relay.Prelude.{
  ℕ, suc, ◌-◌, ◌%◌, ◌^◌, ◌<◌, ◌≡◌, some, ◌++◌, Text, ltb, leb, if◌then◌else◌, arith, codes,
}
use mpcq_json_rpc_relay.Prelude.Int.{ℤ, pos, negsuc}
use mpcq_json_rpc_relay.Formatters.Hex.{to_hex, parse_hex, number_to_0x, parse_hex-to_hex}
use mpcq_json_rpc_relay.Formatters.Prefix.{strip_0x}

-- A JavaScript number, bigint or null, with `nan` for `NaN`.
pub data SignedNumeric : Type 0 where
  null nan : SignedNumeric
  number : ℤ → SignedNumeric

-- `(input + 2^64) % 2^64` for -(n + 1); JavaScript's remainder keeps a minus sign, which is printed
-- behind the prefix.
unfoldable pub negative_to_0x : ℕ → Text
unfolding number_to_0x
negative_to_0x n =
    if leb (suc n) (2 ^ 64)
    then number_to_0x ((2 ^ 64 - suc n) % 2 ^ 64)
    else codes "0x-" ++ to_hex ((suc n - 2 ^ 64) % 2 ^ 64)

unfoldable pub nan_or_number_int64_to_0x : SignedNumeric → Text
unfolding negative_to_0x number_to_0x
nan_or_number_int64_to_0x null = number_to_0x 0
nan_or_number_int64_to_0x nan = number_to_0x 0
nan_or_number_int64_to_0x (number (pos n)) = number_to_0x n
nan_or_number_int64_to_0x (number (negsuc n)) = negative_to_0x n

-- The int64 that 64 bits stand for.
pub int64_of : ℕ → ℤ
int64_of v = if ltb v (2 ^ 63) then pos v else negsuc (2 ^ 64 - 1 - v)

abbrev pub IsInt64 : ℤ → Type 0
IsInt64 (pos n) = n < 2 ^ 63
IsInt64 (negsuc n) = n < 2 ^ 63

parse-number_to_0x : (n : ℕ) → parse_hex (strip_0x (number_to_0x n)) ≡ some n
unfolding strip_0x number_to_0x
parse-number_to_0x n = parse_hex-to_hex n

-- Every int64 is read back from its text as 64 bits in two's complement.
pub int64_of-nan_or_number_int64_to_0x :
    (z : ℤ)
    → IsInt64 z
    → (v : ℕ) × (parse_hex (strip_0x (nan_or_number_int64_to_0x (number z))) ≡ some v)
      × (v < 2 ^ 64)
      × (int64_of v ≡ z)
unfolding nan_or_number_int64_to_0x int64_of
int64_of-nan_or_number_int64_to_0x (pos n) h = (n, parse-number_to_0x n, omega arith, ground arith)
int64_of-nan_or_number_int64_to_0x (negsuc n) h =
    let v : ℕ = 2 ^ 64 - suc n in
    (v, ground (arith, parse-number_to_0x v), omega arith, ground arith)
