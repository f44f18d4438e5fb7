-- ===== src/Formatters/Examples.antt =====
-- The theorems on the formatters at concrete numbers and texts, and runs of the functions.
use mpcq_json_rpc_relay.Prelude.{
  ℕ, ◌+◌, ◌*◌, ◌^◌, ◌≤◌, ◌<◌, ◌≡◌, ◌↔◌, ◌⊎◌, refl, some, codes, arith,
}
use mpcq_json_rpc_relay.Prelude.Int.{pos, negsuc}
use mpcq_json_rpc_relay.Formatters.Hex.{parse_hex}
use mpcq_json_rpc_relay.Formatters.Prefix.{strip_0x, strip_leading_zero_for_signatures}
use mpcq_json_rpc_relay.Formatters.Int64.{
  SignedNumeric, nan_or_number_int64_to_0x, int64_of, int64_of-nan_or_number_int64_to_0x,
}
use mpcq_json_rpc_relay.Formatters.Amounts.{
  weibar_hex_to_tiny_bar_int, amount, tinybar_to_weibar_coef, weibar_rounding,
}

minus_ten : nan_or_number_int64_to_0x (SignedNumeric.number (negsuc 9)) ≡ codes "0xfffffffffffffff6"
unfolding nan_or_number_int64_to_0x
minus_ten = refl

-- Only one leading zero is taken off a signature.
one_zero : strip_leading_zero_for_signatures (codes "0x001f") ≡ codes "0x01f"
unfolding strip_leading_zero_for_signatures
one_zero = refl

int64_of-nan_or_number_int64_to_0x_example :
    (v : ℕ) × (parse_hex (strip_0x (nan_or_number_int64_to_0x (SignedNumeric.number (negsuc 9))))
      ≡ some v)
    × (v < 2 ^ 64)
    × (int64_of v ≡ negsuc 9)
int64_of-nan_or_number_int64_to_0x_example =
    int64_of-nan_or_number_int64_to_0x (negsuc 9) (omega arith)

weibar_rounding_example :
    (t : ℕ) × (weibar_hex_to_tiny_bar_int (amount (pos 7)) ≡ pos t)
    × (7 < (t + 1) * tinybar_to_weibar_coef)
    × ((t * tinybar_to_weibar_coef ≤ 7) ⊎ ((t ≡ 1) × (7 < tinybar_to_weibar_coef)))
    × ((t ≡ 0) ↔ (◌≡◌ {A = ℕ} 7 0))
weibar_rounding_example = weibar_rounding 7 (omega arith)
