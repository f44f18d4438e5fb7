-- ===== src/Formatters/Prefix.antt =====
-- The functions of formatters.ts on the `0x` prefix, leading zeros and the shape of addresses.
use mpcq_json_rpc_relay.Prelude.{
  ℕ, zero, suc, ◌≡◌, refl, Bool, true, false, Option, none, some, [], ◌∷◌, ◌++◌, Text, leb, ◌==◌,
  ◌&&◌, ◌||◌, if◌then◌else◌, arith, codes, ap, starts_with, to_lower_case, length, text_eq,
  text_eq_iff, ◌⊎◌, map,
}
use mpcq_json_rpc_relay.Prelude.Strings.{to_lower}
use mpcq_json_rpc_relay.Formatters.Hex.{parse_from, parse_hex, number_to_0x, parse_hex-to_hex}

-- `s.substring(n)`.
abbrev pub substring : ℕ → Text → Text
substring zero s = s
substring (suc n) [] = []
substring (suc n) (c ∷ s) = substring n s

-- `s.substring(0, n)`.
abbrev pub prefix : ℕ → Text → Text
prefix zero s = []
prefix (suc n) [] = []
prefix (suc n) (c ∷ s) = c ∷ prefix n s

unfoldable pub strip_0x : Text → Text
unfolding starts_with
strip_0x input = if starts_with input (codes "0x") then substring 2 input else input

unfoldable pub prepend_0x : Text → Text
unfolding starts_with
prepend_0x input = if starts_with input (codes "0x") then input else codes "0x" ++ input

-- The class `[0-9a-fA-F]`.
unfoldable pub is_hex_digit : ℕ → Bool
is_hex_digit c = leb 48 c && leb c 57 || leb 97 c && leb c 102 || leb 65 c && leb c 70

unfoldable pub all_hex : Text → Bool
unfolding is_hex_digit
all_hex [] = true
all_hex (c ∷ s) = is_hex_digit c && all_hex s

-- `/^[0-9a-fA-F]+$/.test(s)`.
unfoldable pub some_hex : Text → Bool
unfolding all_hex
some_hex [] = false
some_hex (c ∷ s) = all_hex (c ∷ s)

-- `s.replace(/^0+/, '')`.
unfoldable pub drop_zeros : Text → Text
drop_zeros [] = []
drop_zeros (c ∷ s) = let rest = drop_zeros s in if c == b'0' then rest else c ∷ s

-- `none` is a value that is no string, and the result null.
unfoldable pub trim_preceding_zeros : Option Text → Option Text
unfolding starts_with some_hex drop_zeros
trim_preceding_zeros none = none
trim_preceding_zeros (some input) =
    let hex = if starts_with input (codes "0x") then substring 2 input else input in
    if some_hex hex
    then (let trimmed = drop_zeros hex in some (if text_eq trimmed [] then codes "0" else trimmed))
    else none

unfoldable pub strip_leading_zero_for_signatures : Text → Text
unfolding starts_with
strip_leading_zero_for_signatures signature =
    let s = if starts_with signature (codes "0x") then substring 2 signature else signature in
    codes "0x" ++ (if starts_with s (codes "0") then substring 1 s else s)

unfoldable pub to_hash32 : Text → Text
to_hash32 value = prefix 66 value

unfoldable pub to_null_if_empty_hex : Text → Option Text
unfolding text_eq
to_null_if_empty_hex value = if text_eq value (codes "0x") then none else some value

-- `/^0x[0-9a-fA-F]+$/.test(value)`.
unfoldable pub is_hex : Text → Bool
unfolding starts_with some_hex
is_hex value = starts_with value (codes "0x") && some_hex (substring 2 value)

-- `/^0[xX][a-fA-F0-9]{40}$/.test(address)`, false for null and undefined.
unfoldable pub is_valid_ethereum_address : Option Text → Bool
unfolding all_hex
is_valid_ethereum_address none = false
is_valid_ethereum_address (some []) = false
is_valid_ethereum_address (some (o ∷ [])) = false
is_valid_ethereum_address (some (o ∷ x ∷ digits)) =
    o == b'0' && (x == b'x' || x == b'X') && (length digits == 40) && all_hex digits

-- Adding the prefix to a text without it is undone by stripping, and adding it twice adds it once.
pub strip_0x-prepend_0x :
    (s : Text)
    → starts_with s (codes "0x") ≡ false
    → (strip_0x (prepend_0x s) ≡ s) × (prepend_0x (prepend_0x s) ≡ prepend_0x s)
unfolding strip_0x prepend_0x
strip_0x-prepend_0x s h = (ground arith, ground arith)

parse_from-drop_zeros : (s : Text) → parse_from 0 (drop_zeros s) ≡ parse_from 0 s
unfolding parse_from drop_zeros
parse_from-drop_zeros [] = refl
parse_from-drop_zeros (c ∷ s) = ground (arith, parse_from-drop_zeros s)

drop_zeros-starts_with : (s : Text) → starts_with (drop_zeros s) (codes "0") ≡ false
unfolding drop_zeros starts_with
drop_zeros-starts_with [] = refl
drop_zeros-starts_with (c ∷ s) = ground (arith, drop_zeros-starts_with s)

trimmed_lem :
    (hex t : Text)
    → (if text_eq (drop_zeros hex) [] then codes "0" else drop_zeros hex) ≡ t
    → (parse_hex t ≡ parse_hex hex) × ((t ≡ codes "0") ⊎ (starts_with t (codes "0") ≡ false))
unfolding parse_hex parse_from
trimmed_lem hex t h =
    ground (
      arith,
      parse_from-drop_zeros hex,
      drop_zeros-starts_with hex,
      text_eq_iff (drop_zeros hex) [],
    )

-- What is trimmed stands for the same number, has no leading zero unless it is `0` itself, and had
-- hexadecimal digits behind its optional prefix.
pub trim_preceding_zeros_lem :
    (s t : Text)
    → trim_preceding_zeros (some s) ≡ some t
    → (parse_hex t ≡ parse_hex (strip_0x s))
      × ((t ≡ codes "0") ⊎ (starts_with t (codes "0") ≡ false))
      × (some_hex (strip_0x s) ≡ true)
unfolding trim_preceding_zeros strip_0x
trim_preceding_zeros_lem s t h =
    let (a, b) = trimmed_lem (strip_0x s) t (ground arith) in (a, b, ground arith)

is_hex_digit-to_lower : (c : ℕ) → is_hex_digit (to_lower c) ≡ is_hex_digit c
unfolding is_hex_digit to_lower
is_hex_digit-to_lower c = ground arith

all_hex-to_lower_case : (s : Text) → all_hex (map to_lower s) ≡ all_hex s
unfolding all_hex
all_hex-to_lower_case [] = refl
all_hex-to_lower_case (c ∷ s) = rw (is_hex_digit-to_lower c, all_hex-to_lower_case s)

length-map-to_lower : (s : Text) → length (map to_lower s) ≡ length s
length-map-to_lower [] = refl
length-map-to_lower (c ∷ s) = ap suc (length-map-to_lower s)

to_lower-zero : (c : ℕ) → (to_lower c == b'0') ≡ (c == b'0')
unfolding to_lower
to_lower-zero c = ground arith

to_lower-x : (c : ℕ) → (to_lower c == b'x' || to_lower c == b'X') ≡ (c == b'x' || c == b'X')
unfolding to_lower
to_lower-x c = ground arith

-- Lower case, in which the caches and locks keep addresses, keeps a text an address or no address.
pub is_valid_ethereum_address-to_lower_case :
    (s : Text)
    → is_valid_ethereum_address (some (to_lower_case s)) ≡ is_valid_ethereum_address (some s)
unfolding is_valid_ethereum_address to_lower_case
is_valid_ethereum_address-to_lower_case [] = refl
is_valid_ethereum_address-to_lower_case (o ∷ []) = refl
is_valid_ethereum_address-to_lower_case (o ∷ x ∷ s) =
    rw (all_hex-to_lower_case s, length-map-to_lower s, to_lower-zero o, to_lower-x x)

-- Every number is read back from its hexadecimal text with the prefix, once the prefix is stripped.
pub strip_0x-number_to_0x : (n : ℕ) → parse_hex (strip_0x (number_to_0x n)) ≡ some n
unfolding strip_0x number_to_0x starts_with
strip_0x-number_to_0x n = parse_hex-to_hex n
