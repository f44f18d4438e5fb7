-- ===== src/Hbar/Limiter.antt =====
-- HbarLimitService (packages/relay/src/lib/services/hbarLimitService/index.ts). An operation
-- returns the service after it beside its result; an exception keeps what was done before it. All
-- readings of the clock in one call are `now`.
use mpcq_json_rpc_relay.Prelude.{
  ℕ, ◌+◌, Bool, true, false, Option, none, some, Text, if◌then◌else◌, ◌==◌, ltb, leb, ◌&&◌, ◌||◌,
  not, is_empty,
}
use mpcq_json_rpc_relay.Prelude.Int.{ℤ, pos, ◌-ℤ◌, ltb_ℤ}
use mpcq_json_rpc_relay.Prelude.Results.{Result, ok, err, ◌>>=◌}
use mpcq_json_rpc_relay.Hbar.Cache.{
  SubscriptionTier, basic, extended, privileged, operator, CacheClient,
}
use mpcq_json_rpc_relay.Hbar.Plans.{
  PlanError, no_evm_address, DetailedPlan, find_by_id_with_details, create, add_to_amount_spent,
  reset_amount_spent_of_all_plans, find_by_evm_address, find_by_ip_address, save_evm_address,
}
use mpcq_json_rpc_relay.Hbar.Reset.{get_reset_timestamp, should_reset_limiter}

-- The limits in tinybars, the duration in milliseconds, the operator's address and the supply of
-- UUIDs.
pub record Config : Type 0 where
  pub limit_total : ℕ
  pub limit_basic : ℕ
  pub limit_extended : ℕ
  pub limit_privileged : ℕ
  pub limit_duration : ℕ
  pub operator_address : Text
  pub uuid : ℕ → Text

-- `TIER_LIMITS`.
unfoldable pub tier_limit : Config → SubscriptionTier → ℕ
tier_limit o basic = o.limit_basic
tier_limit o extended = o.limit_extended
tier_limit o privileged = o.limit_privileged
tier_limit o operator = o.limit_total

abbrev pub same_tier : SubscriptionTier → SubscriptionTier → Bool
same_tier basic basic = true
same_tier extended extended = true
same_tier privileged privileged = true
same_tier operator operator = true
same_tier _ _ = false

module _ (C : CacheClient) (o : Config) where
  open C use {Store}

  pub record HbarLimitService : Type 0 where
    pub store : Store
    pub next_uuid : ℕ
    pub reset : ℕ
    pub limit_counter : ℕ
    pub remaining_gauge : ℤ
    pub unique_spending_plans_counter : SubscriptionTier → ℕ

  unfoldable pub is_enabled : Bool
  is_enabled = not (leb o.limit_total 0)

  unfoldable pub get_spending_plan_by_evm_address : Store → Text → Result PlanError DetailedPlan
  unfolding find_by_evm_address find_by_id_with_details
  get_spending_plan_by_evm_address s evm_address = do
    plan_id ← find_by_evm_address C s evm_address
    find_by_id_with_details C s plan_id

  unfoldable pub get_spending_plan_by_ip_address : Store → Text → Result PlanError DetailedPlan
  unfolding find_by_ip_address find_by_id_with_details
  get_spending_plan_by_ip_address s ip_address = do
    plan_id ← find_by_ip_address C s ip_address
    find_by_id_with_details C s plan_id

  -- The `if (ipAddress)` of `getSpendingPlan`, with its `catch`.
  unfoldable pub plan_of_ip : Store → Text → Option DetailedPlan
  unfolding get_spending_plan_by_ip_address
  plan_of_ip s ip_address =
      if is_empty ip_address
      then none
      else (elim (get_spending_plan_by_ip_address s ip_address) [ ok p ↦ some p | err _ ↦ none ])

  unfoldable pub get_spending_plan : Store → Text → Text → Option DetailedPlan
  unfolding get_spending_plan_by_evm_address plan_of_ip
  get_spending_plan s evm_address ip_address =
      if is_empty evm_address
      then plan_of_ip s ip_address
      else (elim (get_spending_plan_by_evm_address s evm_address) [
        | ok p ↦ some p
        | err _ ↦ plan_of_ip s ip_address
      ])

  unfoldable pub create_spending_plan_for_address :
      ℕ
      → HbarLimitService
      → Text
      → SubscriptionTier
      → HbarLimitService × Result PlanError DetailedPlan
  unfolding create save_evm_address
  create_spending_plan_for_address now s evm_address tier =
      if is_empty evm_address
      then (s, err no_evm_address)
      else (let id = o.uuid s.next_uuid in
          let (store₁, spending_plan) = create C s.store tier o.limit_duration id now in
          (
            record s {
              store = save_evm_address C store₁ evm_address id o.limit_duration;
              next_uuid = s.next_uuid + 1;
            },
            ok spending_plan,
          ))

  unfoldable pub get_operator_spending_plan :
      ℕ → HbarLimitService → Text → HbarLimitService × Result PlanError DetailedPlan
  unfolding get_spending_plan create_spending_plan_for_address
  get_operator_spending_plan now s ip_address =
      elim (get_spending_plan s.store o.operator_address ip_address) [
        | some p ↦ (s, ok p)
        | none ↦ create_spending_plan_for_address now s o.operator_address operator
      ]

  unfoldable pub get_remaining_budget : ℕ → HbarLimitService → Text → HbarLimitService × ℤ
  unfolding get_operator_spending_plan
  get_remaining_budget now s ip_address =
      let (s', plan) = get_operator_spending_plan now s ip_address in
      (s', elim plan [ ok p ↦ pos o.limit_total -ℤ pos p.amount_spent | err _ ↦ pos o.limit_total ])

  unfoldable pub reset_limiter : ℕ → HbarLimitService → Text → HbarLimitService
  unfolding reset_amount_spent_of_all_plans get_remaining_budget get_reset_timestamp
  reset_limiter now s ip_address =
      let (s', remaining) =
        get_remaining_budget now (record s { store = reset_amount_spent_of_all_plans C s.store })
          ip_address in
      record s' {
        remaining_gauge = remaining;
        unique_spending_plans_counter = λ tier. 0;
        reset = get_reset_timestamp (λ i. now) o.limit_duration s.reset;
      }

  unfoldable pub is_total_budget_exceeded :
      ℕ → HbarLimitService → Text → ℕ → HbarLimitService × Bool
  unfolding should_reset_limiter reset_limiter get_remaining_budget
  is_total_budget_exceeded now s ip_address estimated_tx_fee =
      let s₁ = if should_reset_limiter now s.reset then reset_limiter now s ip_address else s in
      let (s₂, remaining) = get_remaining_budget now s₁ ip_address in
      if not (ltb_ℤ (pos 0) remaining) || ltb_ℤ (remaining -ℤ pos estimated_tx_fee) (pos 0)
      then (record s₂ { limit_counter = s₂.limit_counter + 1 }, true)
      else (s₂, false)

  -- Whether a plan is over its limit.
  unfoldable pub exceeds_limit : DetailedPlan → ℕ → Bool
  unfolding tier_limit
  exceeds_limit p estimated_tx_fee =
      let spending_limit = tier_limit o p.stored.subscription_tier in
      leb spending_limit p.amount_spent || ltb spending_limit (p.amount_spent + estimated_tx_fee)

  -- The part of `shouldLimit` after the total budget, for an address or an IP address.
  unfoldable pub limit_signer :
      ℕ → HbarLimitService → Text → Text → ℕ → HbarLimitService × Result PlanError Bool
  unfolding get_spending_plan create_spending_plan_for_address exceeds_limit
  limit_signer now s evm_address ip_address estimated_tx_fee =
      elim (get_spending_plan s.store evm_address ip_address) [
        | some p ↦ (s, ok (exceeds_limit p estimated_tx_fee))
        | none ↦
            let (s', created) = create_spending_plan_for_address now s evm_address basic in
            (s', created >>= λ p. ok (exceeds_limit p estimated_tx_fee))
      ]

  unfoldable pub should_limit :
      ℕ → HbarLimitService → Text → Text → ℕ → HbarLimitService × Result PlanError Bool
  unfolding is_enabled is_total_budget_exceeded limit_signer
  should_limit now s evm_address ip_address estimated_tx_fee =
      if not is_enabled
      then (s, ok false)
      else (let (s₁, exceeded) = is_total_budget_exceeded now s ip_address estimated_tx_fee in
          if exceeded
          then (s₁, ok true)
          else (if is_empty evm_address && is_empty ip_address
              then (s₁, ok false)
              else limit_signer now s₁ evm_address ip_address estimated_tx_fee))

  -- `addToAmountSpent` as a step of the service.
  unfoldable pub spend :
      HbarLimitService → Text → ℕ → HbarLimitService × Result PlanError (Unit {0})
  unfolding add_to_amount_spent
  spend s id cost = elim (add_to_amount_spent C s.store id cost o.limit_duration) [
    | ok store' ↦ (record s { store = store' }, ok tt)
    | err e ↦ (s, err e)
  ]

  -- The metric of plans that are used for the first time.
  unfoldable pub count_unique : HbarLimitService → DetailedPlan → HbarLimitService
  count_unique s p = record s {
    unique_spending_plans_counter = λ tier.
        if (p.amount_spent == 0) && same_tier tier p.stored.subscription_tier
        then s.unique_spending_plans_counter tier + 1
        else s.unique_spending_plans_counter tier;
  }

  unfoldable pub charge :
      HbarLimitService → DetailedPlan → ℕ → HbarLimitService × Result PlanError (Unit {0})
  unfolding count_unique spend
  charge s p cost = spend (count_unique s p) p.stored.id cost

  -- The part of `addExpense` after the operator's plan, for the signer's.
  unfoldable pub charge_signer :
      ℕ → HbarLimitService → Text → Text → ℕ → HbarLimitService × Result PlanError (Unit {0})
  unfolding get_spending_plan create_spending_plan_for_address charge
  charge_signer now s evm_address ip_address cost =
      elim (get_spending_plan s.store evm_address ip_address) [
        | some p ↦ charge s p cost
        | none ↦
            if is_empty evm_address
            then (s, ok tt)
            else (let (s', created) = create_spending_plan_for_address now s evm_address basic in
                elim created [ ok p ↦ charge s' p cost | err e ↦ (s', err e) ])
      ]

  -- The part of `addExpense` after the operator's plan is found.
  unfoldable pub charge_both :
      ℕ
      → HbarLimitService
      → DetailedPlan
      → Text
      → Text
      → ℕ
      → HbarLimitService × Result PlanError (Unit {0})
  unfolding spend get_remaining_budget charge_signer
  charge_both now s operator_plan evm_address ip_address cost =
      let (s₁, spent) = spend s operator_plan.stored.id cost in
      elim spent [
        | err e ↦ (s₁, err e)
        | ok _ ↦
            let (s₂, remaining) = get_remaining_budget now s₁ ip_address in
            charge_signer now (record s₂ { remaining_gauge = remaining }) evm_address ip_address
              cost
      ]

  unfoldable pub add_expense :
      ℕ → HbarLimitService → ℕ → Text → Text → HbarLimitService × Result PlanError (Unit {0})
  unfolding is_enabled get_operator_spending_plan charge_both
  add_expense now s cost evm_address ip_address =
      if not is_enabled
      then (s, ok tt)
      else (let (s₁, operator_plan) = get_operator_spending_plan now s ip_address in
          elim operator_plan [
            | err e ↦ (s₁, err e)
            | ok p ↦ charge_both now s₁ p evm_address ip_address cost
          ])
