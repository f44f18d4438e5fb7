-- ===== src/Formatters/Hex.antt =====
-- Numbers in base 16, as `Number.prototype.toString(16)` prints them and `parseInt(s, 16)` reads
-- them; the functions of formatters.ts that print numbers.
use mpcq_json_rpc_relay.Prelude.{
  ℕ, zero, suc, ◌+◌, ◌-◌, ◌*◌, ◌/◌, ◌%◌, ◌<◌, ◌≡◌, ◌∙◌, Option, none, some, [], ◌∷◌, ◌++◌, Text,
  ltb, leb, ◌&&◌, if◌then◌else◌, ◌>>=◌, >>=-eq-some, arith, codes, Bool-cases, inl, inr, ap,
}

-- The digit characters 0-9 and a-f.
unfoldable pub digit : ℕ → ℕ
digit d = if ltb d 10 then d + 48 else d + 87

-- The value of a digit character, in either case.
unfoldable pub digit_value : ℕ → Option ℕ
digit_value c =
    if leb 48 c && leb c 57
    then some (c - 48)
    else (if leb 97 c && leb c 102
        then some (c - 87)
        else (if leb 65 c && leb c 70 then some (c - 55) else none))

-- The digits of `n`, with fuel for the number of digits.
unfoldable pub hex_digits : ℕ → ℕ → Text
unfolding digit
hex_digits zero n = []
hex_digits (suc f) n =
    let high = hex_digits f (n / 16) in
    if ltb n 16 then digit n ∷ [] else high ++ digit (n % 16) ∷ []

-- `n.toString(16)`.
unfoldable pub to_hex : ℕ → Text
unfolding hex_digits
to_hex n = hex_digits (suc n) n

-- The number that a text of hexadecimal digits stands for, after the digits read so far.
unfoldable pub parse_from : ℕ → Text → Option ℕ
unfolding digit_value
parse_from acc [] = some acc
parse_from acc (c ∷ s) = do d ← digit_value c; parse_from (acc * 16 + d) s

unfoldable pub parse_hex : Text → Option ℕ
unfolding parse_from
parse_hex s = parse_from 0 s

unfoldable pub number_to_0x : ℕ → Text
unfolding to_hex
number_to_0x input = codes "0x" ++ to_hex input

-- `hashNumber`.
unfoldable pub hash_number : ℕ → Text
unfolding to_hex
hash_number num = codes "0x" ++ to_hex num

unfoldable pub nullable_number_to_0x : Option ℕ → Option Text
unfolding number_to_0x
nullable_number_to_0x none = none
nullable_number_to_0x (some input) = some (number_to_0x input)

-- A JavaScript number or null: `nan` is `NaN`.
pub data Numeric : Type 0 where
  null nan : Numeric
  number : ℕ → Numeric

unfoldable pub nan_or_number_to_0x : Numeric → Text
unfolding number_to_0x
nan_or_number_to_0x null = number_to_0x 0
nan_or_number_to_0x nan = number_to_0x 0
nan_or_number_to_0x (number input) = number_to_0x input

digit_value-digit : (d : ℕ) → d < 16 → digit_value (digit d) ≡ some d
unfolding digit digit_value
digit_value-digit d h = ground arith

parse_from-append :
    (xs : Text) (acc k c d : ℕ)
    → parse_from acc xs ≡ some k
    → digit_value c ≡ some d
    → parse_from acc (xs ++ c ∷ []) ≡ some (k * 16 + d)
unfolding parse_from
parse_from-append [] acc k c d h e = ground arith
parse_from-append (x ∷ xs) acc k c d h e =
    let (v, e₁, h₁) = >>=-eq-some (digit_value x) _ h in
    rw e₁ (parse_from-append xs (acc * 16 + v) k c d h₁ e)

parse-hex_digits : (f n : ℕ) → n < f → parse_from 0 (hex_digits f n) ≡ some n
unfolding hex_digits parse_from
parse-hex_digits zero n h = absurd (omega arith)
parse-hex_digits (suc f) n h = elim (Bool-cases (ltb n 16)) [
  | inl low ↦ rw low (ground (arith, digit_value-digit n))
  | inr high ↦ rw high (
      parse_from-append (hex_digits f (n / 16)) 0 (n / 16) (digit (n % 16)) (n % 16)
        (parse-hex_digits f (n / 16) (ground arith)) (digit_value-digit (n % 16) (omega arith))
      ∙ ap some (omega arith))
]

-- Every number is read back from its text.
pub parse_hex-to_hex : (n : ℕ) → parse_hex (to_hex n) ≡ some n
unfolding parse_hex to_hex
parse_hex-to_hex n = parse-hex_digits (suc n) n (omega arith)
