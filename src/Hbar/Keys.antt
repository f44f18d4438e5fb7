-- ===== src/Hbar/Keys.antt =====
-- The keys under which the repositories keep plans, amounts, histories and links, and that keys of
-- different things are different.
use mpcq_json_rpc_relay.Prelude.{
  ℕ, ◌≡◌, ◌≢◌, refl, Bool, [], ◌∷◌, ◌++◌, Text, codes, to_lower_case, ◌==◌, ◌||◌, ◌&&◌, arith,
  if◌then◌else◌, leb,
}
use mathlib.Core.List.{reverse}

-- `HbarSpendingPlanRepository.getKey`.
unfoldable pub plan_key : Text → Text
plan_key id = codes "hbarSpendingPlan:" ++ id

-- `getAmountSpentKey`.
unfoldable pub amount_spent_key : Text → Text
amount_spent_key id = codes "hbarSpendingPlan:" ++ (id ++ codes ":amountSpent")

-- `getSpendingHistoryKey`.
unfoldable pub spending_history_key : Text → Text
spending_history_key id = codes "hbarSpendingPlan:" ++ (id ++ codes ":spendingHistory")

-- The white space of ASCII, which `trim` takes off at both ends.
unfoldable pub is_space : ℕ → Bool
is_space c = c == 32 || leb 9 c && leb c 13

unfoldable pub trim_start : Text → Text
unfolding is_space
trim_start [] = []
trim_start (c ∷ s) = let rest = trim_start s in if is_space c then rest else c ∷ s

unfoldable pub trim : Text → Text
unfolding trim_start
trim s = reverse (trim_start (reverse (trim_start s)))

-- `EvmAddressHbarSpendingPlanRepository.getKey`.
unfoldable pub evm_address_key : Text → Text
unfolding trim
evm_address_key evm_address =
    codes "evmAddressHbarSpendingPlan:" ++ to_lower_case (trim evm_address)

-- `IPAddressHbarSpendingPlanRepository.getKey`.
unfoldable pub ip_address_key : Text → Text
ip_address_key ip_address = codes "ipAddressHbarSpendingPlan:" ++ ip_address

-- An id without a colon, such as a UUID.
abbrev pub HasNoColon : Text → Type 0
HasNoColon [] = Unit
HasNoColon (c ∷ s) = (c ≢ b':') × HasNoColon s

append_cancel : (p a b : Text) → p ++ a ≡ p ++ b → a ≡ b
append_cancel [] a b h = h
append_cancel (c ∷ p) a b h = append_cancel p a b (cc)

no-colon_append : (a b : Text) → ¬ HasNoColon (a ++ b':' ∷ b)
no-colon_append [] b h = h.0 refl
no-colon_append (c ∷ a) b h = no-colon_append a b h.1

suffix_cancel : (a b s : Text) → HasNoColon a → HasNoColon b → a ++ b':' ∷ s ≡ b ++ b':' ∷ s → a ≡ b
suffix_cancel [] [] s ha hb h = refl
suffix_cancel [] (d ∷ b) s ha hb h = absurd (hb.0 (cc))
suffix_cancel (c ∷ a) [] s ha hb h = absurd (ha.0 (cc))
suffix_cancel (c ∷ a) (d ∷ b) s ha hb h = cc (suffix_cancel a b s ha.1 hb.1 (cc))

-- Amounts of different plans are kept under different keys.
pub amount_spent_key-injective :
    (a b : Text) → HasNoColon a → HasNoColon b → amount_spent_key a ≡ amount_spent_key b → a ≡ b
unfolding amount_spent_key
amount_spent_key-injective a b ha hb h =
    suffix_cancel a b (codes "amountSpent") ha hb (append_cancel (codes "hbarSpendingPlan:") _ _ h)

pub plan_key-injective : (a b : Text) → plan_key a ≡ plan_key b → a ≡ b
unfolding plan_key
plan_key-injective a b h = append_cancel (codes "hbarSpendingPlan:") a b h

pub amount_spent-ne-plan : (a b : Text) → HasNoColon b → amount_spent_key a ≢ plan_key b
unfolding amount_spent_key plan_key
amount_spent-ne-plan a b hb h =
    no-colon_append a (codes "amountSpent")
      (rw (append_cancel (codes "hbarSpendingPlan:") _ _ h) hb)

pub amount_spent-ne-evm : (a b : Text) → amount_spent_key a ≢ evm_address_key b
unfolding amount_spent_key evm_address_key
amount_spent-ne-evm a b h = ground arith

pub amount_spent-ne-ip : (a b : Text) → amount_spent_key a ≢ ip_address_key b
unfolding amount_spent_key ip_address_key
amount_spent-ne-ip a b h = ground arith

pub plan-ne-evm : (a b : Text) → plan_key a ≢ evm_address_key b
unfolding plan_key evm_address_key
plan-ne-evm a b h = ground arith

pub plan-ne-ip : (a b : Text) → plan_key a ≢ ip_address_key b
unfolding plan_key ip_address_key
plan-ne-ip a b h = ground arith

pub evm-ne-ip : (a b : Text) → evm_address_key a ≢ ip_address_key b
unfolding evm_address_key ip_address_key
evm-ne-ip a b h = ground arith
