-- ===== src/Hbar/Plans.antt =====
-- HbarSpendingPlanRepository.ts, EvmAddressHbarSpendingPlanRepository.ts and
-- IPAddressHbarSpendingPlanRepository.ts over a cache. Each operation returns the cache after it
-- beside its result or error.
use mpcq_json_rpc_relay.Prelude.{
  ℕ, Bool, true, false, Option, none, some, List, [], ◌∷◌, Text, codes, if◌then◌else◌, ◌==◌,
}
use mpcq_json_rpc_relay.Prelude.Results.{Result, ok, err, ◌>>=◌, ◌>>◌}
use mpcq_json_rpc_relay.Hbar.Keys.{plan_key, amount_spent_key, evm_address_key, ip_address_key}
use mpcq_json_rpc_relay.Hbar.Cache.{
  SubscriptionTier, HbarSpendingRecord, HbarSpendingPlan, Value, plan, amount, link, CacheClient,
}

-- The errors of db/types/hbarLimiter/errors.ts, and that of a plan without an address.
pub data PlanError : Type 0 where
  plan_not_found plan_not_active evm_address_not_found ip_address_not_found : PlanError
  no_evm_address : PlanError

-- `IDetailedHbarSpendingPlan`.
pub record DetailedPlan : Type 0 where
  pub stored : HbarSpendingPlan
  pub spending_history : List HbarSpendingRecord
  pub amount_spent : ℕ

-- The typed reads of the cache. Each key holds values of its own kind only.
abbrev pub as_plan : Option Value → Option HbarSpendingPlan
as_plan (some (plan p)) = some p
as_plan v = none

-- `parseInt(amountSpent ?? '0')`.
abbrev pub as_amount : Option Value → ℕ
as_amount (some (amount n)) = n
as_amount v = 0

abbrev pub as_link : Option Value → Option Text
as_link (some (link id)) = some id
as_link v = none

-- `!(await this.cache.getAsync(key))`: no entry, or a number that is 0.
abbrev pub is_falsy : Option Value → Bool
is_falsy none = true
is_falsy (some (amount n)) = n == 0
is_falsy (some v) = false

module _ (C : CacheClient) where
  open C use {Store, get, set, delete, incr_by, keys}

  unfoldable pub find_by_id : Store → Text → Result PlanError HbarSpendingPlan
  find_by_id s id = elim (as_plan (get s (plan_key id))) [
    | none ↦ err plan_not_found
    | some p ↦ ok p
  ]

  unfoldable pub check_exists_and_active : Store → Text → Result PlanError (Unit {0})
  unfolding find_by_id
  check_exists_and_active s id = do
    p ← find_by_id s id
    if p.active then ok tt else err plan_not_active

  unfoldable pub get_amount_spent : Store → Text → Result PlanError ℕ
  unfolding check_exists_and_active
  get_amount_spent s id = do
    check_exists_and_active s id
    ok (as_amount (get s (amount_spent_key id)))

  unfoldable pub find_by_id_with_details : Store → Text → Result PlanError DetailedPlan
  unfolding find_by_id get_amount_spent
  find_by_id_with_details s id = do
    p ← find_by_id s id
    spent ← get_amount_spent s id
    ok (record { stored = p; spending_history = []; amount_spent = spent })

  -- `planId` is the UUID that the call generates.
  unfoldable pub create : Store → SubscriptionTier → ℕ → Text → ℕ → Store × DetailedPlan
  create s tier ttl plan_id now =
      let p : HbarSpendingPlan = record {
        id = plan_id;
        subscription_tier = tier;
        created_at = now;
        active = true;
      } in
      (
        set s (plan_key plan_id) (plan p) ttl,
        record { stored = p; spending_history = []; amount_spent = 0 },
      )

  unfoldable pub add_to_amount_spent : Store → Text → ℕ → ℕ → Result PlanError Store
  unfolding check_exists_and_active
  add_to_amount_spent s id cost ttl = do
    check_exists_and_active s id
    let key = amount_spent_key id
    if is_falsy (get s key) then ok (set s key (amount cost) ttl) else ok (incr_by s key cost)

  -- The loop that deletes the keys it is given.
  unfoldable pub delete_all : Store → List Text → Store
  delete_all s [] = s
  delete_all s (k ∷ ks) = delete_all (delete s k) ks

  unfoldable pub reset_amount_spent_of_all_plans : Store → Store
  unfolding delete_all
  reset_amount_spent_of_all_plans s = delete_all s (keys s (amount_spent_key (codes "*")))

  -- `findByAddress` of the two address repositories: the id of the linked plan.
  unfoldable pub find_by_evm_address : Store → Text → Result PlanError Text
  find_by_evm_address s evm_address = elim (as_link (get s (evm_address_key evm_address))) [
    | none ↦ err evm_address_not_found
    | some id ↦ ok id
  ]

  unfoldable pub find_by_ip_address : Store → Text → Result PlanError Text
  find_by_ip_address s ip_address = elim (as_link (get s (ip_address_key ip_address))) [
    | none ↦ err ip_address_not_found
    | some id ↦ ok id
  ]

  -- `save` of the EVM address repository.
  unfoldable pub save_evm_address : Store → Text → Text → ℕ → Store
  save_evm_address s evm_address plan_id ttl =
      set s (evm_address_key evm_address) (link plan_id) ttl
