-- ===== src/Hbar/Decision.antt =====
-- `shouldLimit` of HbarLimitService: when it limits, and what it leaves behind.
use mpcq_json_rpc_relay.Prelude.{
  ℕ, ◌+◌, ◌≤◌, ◌<◌, ◌≡◌, ◌⊎◌, inl, inr, refl, Bool, true, false, Text, if◌then◌else◌, arith,
  Bool-cases, ◌↔◌, not, ltb, leb, ◌||◌,
}
use mpcq_json_rpc_relay.Prelude.Int.{pos, ◌-ℤ◌, ltb_ℤ}
use mpcq_json_rpc_relay.Prelude.Results.{ok}
use mpcq_json_rpc_relay.Hbar.Cache.{HbarSpendingPlan, CacheClient}
use mpcq_json_rpc_relay.Hbar.Reset.{should_reset_limiter}
use mpcq_json_rpc_relay.Hbar.Limiter.{
  Config, tier_limit, HbarLimitService, is_enabled, is_total_budget_exceeded, exceeds_limit,
  limit_signer, should_limit,
}
use mpcq_json_rpc_relay.Hbar.Amounts.{spent}
use mpcq_json_rpc_relay.Hbar.Spending.{
  Linked, details, get_spending_plan_lem, get_remaining_budget_lem,
}

-- A limit that is used up, or that a fee would exceed.
abbrev pub IsOver : (limit used fee : ℕ) → Type 0
IsOver limit used fee = (limit ≤ used) ⊎ (limit < used + fee)

abbrev over : (limit used fee : ℕ) → Bool
over limit used fee = leb limit used || ltb limit (used + fee)

over_iff : (limit used fee : ℕ) → (over limit used fee ≡ true) ↔ IsOver limit used fee
over_iff l u f = (
  λ h. elim (Bool-cases (leb l u)) [ inl e ↦ inl (ground arith) | inr e ↦ inr (ground arith) ],
  λ h. ground arith,
)

budget_test :
    (limit used fee : ℕ)
    → not (ltb_ℤ (pos 0) (pos limit -ℤ pos used))
        || ltb_ℤ (pos limit -ℤ pos used -ℤ pos fee) (pos 0)
      ≡ over limit used fee
unfolding ◌-ℤ◌
budget_test l u f = ground arith

leb-early : (a b : ℕ) → a < b → leb b a ≡ false
leb-early a b h = ground arith

module _ (C : CacheClient) (o : Config) where
  open C use {Store}

  exceeds_limit_lem :
      (s : Store) (p : HbarSpendingPlan) (fee : ℕ)
      → exceeds_limit C o (details C o s p) fee
        ≡ over (tier_limit o p.subscription_tier) (spent C s p.id) fee
  unfolding exceeds_limit details
  exceeds_limit_lem s p fee = refl

  is_total_budget_exceeded_lem :
      (now : ℕ) (s : HbarLimitService C o) (ip : Text) (fee : ℕ) (po : HbarSpendingPlan)
      → now < s.reset
      → Linked C o s.store o.operator_address po
      → is_total_budget_exceeded C o now s ip fee ≡ (
          if over o.limit_total (spent C s.store po.id) fee
          then (record s { limit_counter = s.limit_counter + 1 }, true)
          else (s, false))
  unfolding is_total_budget_exceeded should_reset_limiter
  is_total_budget_exceeded_lem now s ip fee po h lo =
      let early = leb-early now s.reset h in
      let e = get_remaining_budget_lem C o now s ip po lo in
      let b = budget_test o.limit_total (spent C s.store po.id) fee in ground (arith, early, e, b)

  limit_signer_lem :
      (now : ℕ) (s : HbarLimitService C o) (e ip : Text) (fee : ℕ) (ps : HbarSpendingPlan)
      → Linked C o s.store e ps
      → limit_signer C o now s e ip fee
        ≡ (s, ok (over (tier_limit o ps.subscription_tier) (spent C s.store ps.id) fee))
  unfolding limit_signer
  limit_signer_lem now s e ip fee ps l =
      ground (arith, get_spending_plan_lem C o s.store e ip ps l, exceeds_limit_lem s.store ps fee)

  -- Before the reset time, with the limiter enabled and plans for the operator and the signer, a
  -- transaction is limited exactly when its fee does not fit the total budget or the limit of the
  -- signer's tier; the store, the reset time and the gauge stay as they are.
  pub should_limit_iff :
      (now : ℕ) (s : HbarLimitService C o) (e ip : Text) (fee : ℕ) (po ps : HbarSpendingPlan)
      → is_enabled C o ≡ true
      → now < s.reset
      → Linked C o s.store o.operator_address po
      → Linked C o s.store e ps
      → (c : ℕ) × (b : Bool) × (should_limit C o now s e ip fee
          ≡ (record s { limit_counter = c }, ok b))
        × ((b ≡ true) ↔ (
            IsOver o.limit_total (spent C s.store po.id) fee
            ⊎ IsOver (tier_limit o ps.subscription_tier) (spent C s.store ps.id) fee))
  unfolding should_limit
  should_limit_iff now s e ip fee po ps on h lo ls =
      let total = is_total_budget_exceeded_lem now s ip fee po h lo in
      let signer = limit_signer_lem now s e ip fee ps ls in
      let t = over_iff o.limit_total (spent C s.store po.id) fee in
      let l = over_iff (tier_limit o ps.subscription_tier) (spent C s.store ps.id) fee in
      elim (Bool-cases (over o.limit_total (spent C s.store po.id) fee)) [
        | inl over_total ↦ (
          s.limit_counter + 1,
          true,
          rw (on, total, over_total) refl,
          (λ _. inl (t.0 over_total), λ _. refl),
        )
        | inr within ↦ (
          s.limit_counter,
          over (tier_limit o ps.subscription_tier) (spent C s.store ps.id) fee,
          rw (on, total, within, ls.given) signer,
          (λ b. inr (l.0 b), λ d. elim d [ inl a ↦ ground (arith, t.1 a, within) | inr a ↦ l.1 a ]),
        )
      ]
