-- ===== src/Formatters/TransactionId.antt =====
-- formatters.ts: the ids of transactions, with the pattern of constants.ts that they match.
use mpcq_json_rpc_relay.Prelude.{
  ℕ, zero, suc, ◌≡◌, refl, Bool, true, false, Option, none, some, [], ◌∷◌, ◌++◌, Text, leb, ◌==◌,
  ◌&&◌, ◌||◌, if◌then◌else◌, arith,
}

abbrev is_digit : ℕ → Bool
is_digit c = leb b'0' c && leb c b'9'

-- What is left after the digits at the front, of which there are at least one and at most `most`; a
-- pattern that goes on with a character that is no digit takes all the digits there are.
unfoldable pub after_digits : ℕ → Text → Option Text
after_digits zero s = none
after_digits (suc most) [] = none
after_digits (suc most) (c ∷ s) =
    let rest = after_digits most s in
    if is_digit c then (elim rest [ none ↦ some s | some left ↦ some left ]) else none

-- `\d\.` at the front.
unfoldable pub after_digit_dot : Text → Option Text
after_digit_dot (d ∷ p ∷ s) = if is_digit d && (p == b'.') then some s else none
after_digit_dot s = none

-- A character at the front.
unfoldable pub after_char : ℕ → Text → Option Text
after_char k [] = none
after_char k (c ∷ s) = if c == k then some s else none

abbrev then_after : Option Text → (Text → Option Text) → Option Text
then_after none f = none
then_after (some s) f = f s

abbrev is_some : Option Text → Bool
is_some none = false
is_some (some s) = true

-- The pattern at the front; its last group needs one digit, of those it may take.
unfoldable pub id_at_front : Text → Bool
unfolding after_digit_dot after_digits after_char
id_at_front s = is_some (
    then_after (after_digit_dot s) (λ a. then_after (after_digit_dot a) (λ b.
      then_after (after_digits 10 b) (λ c. then_after (after_char b'@' c) (λ d.
        then_after (after_digits 10 d)
          (λ e. then_after (after_char b'.' e) (λ f. after_digits 1 f)))))))

-- `TRANSACTION_ID_REGEX.test(s)`, which looks for the pattern anywhere.
unfoldable pub is_transaction_id : Text → Bool
unfolding id_at_front
is_transaction_id [] = false
is_transaction_id (c ∷ s) = let rest = is_transaction_id s in id_at_front (c ∷ s) || rest

-- `s.split(k)[0]`, and what follows the first `k`.
unfoldable pub before : ℕ → Text → Text
before k [] = []
before k (c ∷ s) = let rest = before k s in if c == k then [] else c ∷ rest

unfoldable pub after : ℕ → Text → Text
after k [] = []
after k (c ∷ s) = let rest = after k s in if c == k then s else rest

-- `s.replace('.', '-')`: the first only.
unfoldable pub dot_to_dash : Text → Text
dot_to_dash [] = []
dot_to_dash (c ∷ s) = let rest = dot_to_dash s in if c == b'.' then b'-' ∷ s else c ∷ rest

unfoldable pub format_transaction_id : Text → Option Text
unfolding is_transaction_id before after dot_to_dash
format_transaction_id transaction_id =
    if is_transaction_id transaction_id
    then some
        (before b'@' transaction_id ++ b'-' ∷ dot_to_dash (before b'@' (after b'@' transaction_id)))
    else none

-- What is formatted has a dash in it, so it is never falsy.
unfoldable pub format_transaction_id_without_query_params : Text → Option Text
unfolding format_transaction_id before
format_transaction_id_without_query_params transaction_id =
    elim (format_transaction_id transaction_id) [
      | none ↦ none
      | some formatted ↦ some (before b'?' formatted)
    ]

-- No character of the text is `k`.
unfoldable pub lacks : ℕ → Text → Bool
lacks k [] = true
lacks k (c ∷ s) = let rest = lacks k s in if c == k then false else rest

before-append : (k : ℕ) (a s : Text) → lacks k a ≡ true → before k (a ++ k ∷ s) ≡ a
unfolding before lacks
before-append k [] s h = ground arith
before-append k (c ∷ a) s h = ground (arith, before-append k a s)

after-append : (k : ℕ) (a s : Text) → lacks k a ≡ true → after k (a ++ k ∷ s) ≡ s
unfolding after lacks
after-append k [] s h = ground arith
after-append k (c ∷ a) s h = ground (arith, after-append k a s)

before_all : (k : ℕ) (s : Text) → lacks k s ≡ true → before k s ≡ s
unfolding before lacks
before_all k [] h = refl
before_all k (c ∷ s) h = ground (arith, before_all k s)

dot_to_dash-append :
    (a s : Text) → lacks b'.' a ≡ true → dot_to_dash (a ++ b'.' ∷ s) ≡ a ++ b'-' ∷ s
unfolding dot_to_dash lacks
dot_to_dash-append [] s h = refl
dot_to_dash-append (c ∷ a) s h = ground (arith, dot_to_dash-append a s)

lacks-append :
    (k c : ℕ) (a s : Text)
    → lacks k a ≡ true
    → lacks k s ≡ true
    → (c == k) ≡ false
    → lacks k (a ++ c ∷ s) ≡ true
unfolding lacks
lacks-append k c [] s h g e = ground arith
lacks-append k c (x ∷ a) s h g e = ground (arith, lacks-append k c a s)

-- An id `payer@seconds.nanos` is formatted as `payer-seconds-nanos`.
pub format_transaction_id_lem :
    (payer seconds nanos : Text)
    → is_transaction_id (payer ++ b'@' ∷ (seconds ++ b'.' ∷ nanos)) ≡ true
    → lacks b'@' payer ≡ true
    → lacks b'@' seconds ≡ true
    → lacks b'.' seconds ≡ true
    → lacks b'@' nanos ≡ true
    → format_transaction_id (payer ++ b'@' ∷ (seconds ++ b'.' ∷ nanos))
      ≡ some (payer ++ b'-' ∷ (seconds ++ b'-' ∷ nanos))
unfolding format_transaction_id
format_transaction_id_lem payer seconds nanos valid p s d n =
    rw
      (
        valid,
        before-append b'@' payer (seconds ++ b'.' ∷ nanos) p,
        after-append b'@' payer (seconds ++ b'.' ∷ nanos) p,
        before_all b'@' (seconds ++ b'.' ∷ nanos) (lacks-append b'@' b'.' seconds nanos s n refl),
        dot_to_dash-append seconds nanos d,
      )
      refl
