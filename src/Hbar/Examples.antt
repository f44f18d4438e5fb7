-- ===== src/Hbar/Examples.antt =====
-- An operator and one signer over a cache that forgets nothing, and the theorems at them.
use mpcq_json_rpc_relay.Prelude.{
  ℕ, zero, suc, ◌+◌, ◌≤◌, ◌≡◌, ◌⊎◌, inl, inr, ◌↔◌, refl, Bool, true, some, List, [], ◌∷◌, codes,
  lookup, arith, text_eq, to_lower_case,
}
use mpcq_json_rpc_relay.Prelude.Strings.{to_lower}
use mpcq_json_rpc_relay.Prelude.Int.{pos}
use mpcq_json_rpc_relay.Prelude.Results.{ok}
use mpcq_json_rpc_relay.Hbar.Keys.{
  plan_key, amount_spent_key, evm_address_key, trim, trim_start, is_space,
}
use mpcq_json_rpc_relay.Hbar.Cache.{HbarSpendingPlan, plan, amount, link, basic, operator}
use mpcq_json_rpc_relay.Hbar.Reset.{IsNext, advance, get_reset_timestamp, advance_lem}
use mpcq_json_rpc_relay.Hbar.Limiter.{
  Config, tier_limit, HbarLimitService, is_enabled, should_limit,
}
use mpcq_json_rpc_relay.Hbar.Amounts.{spent}
use mpcq_json_rpc_relay.Hbar.Spending.{Linked, Expense, HaveSigners}
use mpcq_json_rpc_relay.Hbar.Decision.{IsOver, should_limit_iff}
use mpcq_json_rpc_relay.Hbar.MapCache.{map_cache}

abbrev config : Config
config = record {
  limit_total = 100;
  limit_basic = 10;
  limit_extended = 20;
  limit_privileged = 30;
  limit_duration = 1000;
  operator_address = codes "0xop";
  uuid = λ n. (48 + n) ∷ [];
}

abbrev operator_plan : HbarSpendingPlan
operator_plan = record {
  id = codes "p";
  subscription_tier = operator;
  created_at = 0;
  active = true;
}

abbrev signer_plan : HbarSpendingPlan
signer_plan = record { id = codes "q"; subscription_tier = basic; created_at = 0; active = true }

abbrev service : HbarLimitService map_cache config
service = record {
  store =
      (codes "hbarSpendingPlan:p", plan operator_plan)
      ∷ (codes "hbarSpendingPlan:q", plan signer_plan)
      ∷ (codes "evmAddressHbarSpendingPlan:0xop", link (codes "p"))
      ∷ (codes "evmAddressHbarSpendingPlan:0xe", link (codes "q"))
      ∷ (codes "hbarSpendingPlan:p:amountSpent", amount 5)
      ∷ [];
  next_uuid = 0;
  reset = 500;
  limit_counter = 0;
  remaining_gauge = pos 95;
  unique_spending_plans_counter = λ tier. 0;
}

operator-Linked : Linked map_cache config service.store (codes "0xop") operator_plan
unfolding lookup text_eq plan_key amount_spent_key evm_address_key trim trim_start is_space
    to_lower_case to_lower
operator-Linked = record {
  given = refl;
  linked = refl;
  kept = record {
    stored = refl;
    active = refl;
    no_colon = (λ h. ground arith, tt);
    amounts = inr (5, refl);
  };
}

signer-Linked : Linked map_cache config service.store (codes "0xE") signer_plan
unfolding lookup text_eq plan_key amount_spent_key evm_address_key trim trim_start is_space
    to_lower_case to_lower
signer-Linked = record {
  given = refl;
  linked = refl;
  kept = record {
    stored = refl;
    active = refl;
    no_colon = (λ h. ground arith, tt);
    amounts = inl refl;
  };
}

on : is_enabled map_cache config ≡ true
unfolding is_enabled
on = refl

-- A clock that moves by one after the first reading.
abbrev ticking : ℕ → ℕ
ticking zero = 3700
ticking (suc i) = 3701

ticking-forward : (i : ℕ) → ticking i ≤ ticking (suc i)
ticking-forward zero = omega arith
ticking-forward (suc i) = omega arith

advance_lem_example :
    (r : ℕ) × (advance 3 ticking 1000 500 ≡ some r)
    × (get_reset_timestamp ticking 1000 500 ≡ r)
    × IsNext ticking 1000 500 r
advance_lem_example = advance_lem ticking 1000 500 (omega arith) ticking-forward (omega arith)

abbrev expenses : List (Expense map_cache config)
expenses =
    record { now = 7; cost = 3; signer = codes "0xE"; ip_address = []; signer_plan = signer_plan }
    ∷ record {
      now = 9;
      cost = 4;
      signer = codes "0xE";
      ip_address = codes "::1";
      signer_plan = signer_plan;
    }
    ∷ []

have_signers : HaveSigners map_cache config service.store operator_plan expenses
unfolding HaveSigners text_eq
have_signers = (signer-Linked, refl, (signer-Linked, refl, tt))

should_limit_iff_example :
    (c : ℕ) × (b : Bool) × (should_limit map_cache config 7 service (codes "0xE") [] 11
      ≡ (record service { limit_counter = c }, ok b))
    × ((b ≡ true) ↔ (
        IsOver 100 (spent map_cache service.store (codes "p")) 11
        ⊎ IsOver (tier_limit config basic) (spent map_cache service.store (codes "q")) 11))
should_limit_iff_example =
    should_limit_iff map_cache config 7 service (codes "0xE") [] 11 operator_plan signer_plan on
      (omega arith) operator-Linked signer-Linked

-- Only the caller's IP address has a plan.
abbrev fallback : HbarLimitService map_cache config
fallback = record service {
  store =
      (codes "hbarSpendingPlan:q", plan signer_plan)
      ∷ (codes "ipAddressHbarSpendingPlan:::1", link (codes "q"))
      ∷ [];
}
