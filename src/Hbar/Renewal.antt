-- ===== src/Hbar/Renewal.antt =====
-- `resetLimiter` of HbarLimitService: every amount is gone, every plan stays.
use mpcq_json_rpc_relay.Prelude.{
  ℕ, ◌+◌, ◌*◌, ◌≤◌, ◌<◌, ◌≡◌, ◌≢◌, inl, inr, refl, sym, none, List, [], ◌∷◌, Text, codes,
  if◌then◌else◌, arith, text_eq, text_eq_iff, ◌∙◌, subst, Bool-cases, Option-cases,
}
use mpcq_json_rpc_relay.Prelude.Sets.{has}
use mpcq_json_rpc_relay.Prelude.Int.{pos, ◌-ℤ◌}
use mpcq_json_rpc_relay.Hbar.Keys.{
  amount_spent_key, evm_address_key, plan_key, amount_spent-ne-evm, amount_spent-ne-plan,
}
use mpcq_json_rpc_relay.Hbar.Cache.{HbarSpendingPlan, SubscriptionTier, CacheClient}
use mpcq_json_rpc_relay.Hbar.Plans.{delete_all, reset_amount_spent_of_all_plans}
use mpcq_json_rpc_relay.Hbar.Reset.{get_reset_timestamp, advance_lem}
use mpcq_json_rpc_relay.Hbar.Limiter.{Config, HbarLimitService, reset_limiter}
use mpcq_json_rpc_relay.Hbar.Amounts.{spent, IsKept}
use mpcq_json_rpc_relay.Hbar.Spending.{Linked, get_remaining_budget_lem}

module _ (C : CacheClient) where
  open C use {Store, get, delete, keys}

  delete_all_lem :
      (ks : List Text) (s : Store) (k : Text)
      → get (delete_all C s ks) k ≡ (if has k ks then none else get s k)
  unfolding delete_all has
  delete_all_lem [] s k = refl
  delete_all_lem (j ∷ ks) s k =
      let rest = delete_all_lem ks (delete s j) k in
      elim (Bool-cases (text_eq j k)) [
        | inl e ↦
            let same = (text_eq_iff j k).0 e in
            let gone = subst (λ x. get (delete s j) x ≡ none) same (C.get-delete_self s j) in
            ground (arith, rest, e, gone)
        | inr e ↦
            let ne : j ≢ k = λ q. ground (arith, (text_eq_iff j k).1 q, e) in
            ground (arith, rest, e, C.get-delete_ne s j k ne)
      ]

  reset_amount :
      (s : Store) (id : Text)
      → get (reset_amount_spent_of_all_plans C s) (amount_spent_key id) ≡ none
  unfolding reset_amount_spent_of_all_plans
  reset_amount s id =
      let k = amount_spent_key id in
      let e = delete_all_lem (keys s (amount_spent_key (codes "*"))) s k in
      elim (Option-cases (get s k)) [
        | inl n ↦ ground (arith, e, n)
        | inr (v, there) ↦
            let h = C.keys-amount_spent s id (λ n. ground (arith, n, there)) in ground (arith, e, h)
      ]

  reset_other :
      (s : Store) (k : Text)
      → ((id : Text) → amount_spent_key id ≢ k)
      → get (reset_amount_spent_of_all_plans C s) k ≡ get s k
  unfolding reset_amount_spent_of_all_plans
  reset_other s k ne =
      let ks = keys s (amount_spent_key (codes "*")) in
      let e = delete_all_lem ks s k in
      elim (Bool-cases (has k ks)) [
        | inl h ↦ let (id, same) = C.keys-amount_spent_only s k h in absurd (ne id (sym same))
        | inr h ↦ ground (arith, e, h)
      ]

  pub reset-IsKept :
      (s : Store) (p : HbarSpendingPlan)
      → IsKept C s p
      → IsKept C (reset_amount_spent_of_all_plans C s) p
  reset-IsKept s p k = record {
    stored =
        reset_other s (plan_key p.id) (λ id. amount_spent-ne-plan id p.id k.no_colon) ∙ k.stored;
    active = k.active;
    no_colon = k.no_colon;
    amounts = inl (reset_amount s p.id);
  }

module _ (C : CacheClient) (o : Config) where
  reset-Linked :
      (s : C.Store) (e : Text) (p : HbarSpendingPlan)
      → Linked C o s e p
      → Linked C o (reset_amount_spent_of_all_plans C s) e p
  reset-Linked s e p l = record {
    given = l.given;
    linked = reset_other C s (evm_address_key e) (λ id. amount_spent-ne-evm id e) ∙ l.linked;
    kept = reset-IsKept C s p l.kept;
  }

  sub_zero : (n m : ℕ) → m ≡ 0 → pos n -ℤ pos m ≡ pos n
  unfolding ◌-ℤ◌
  sub_zero n m h = ground arith

  renewed : ℕ → HbarLimitService C o → HbarLimitService C o
  renewed now s = record s {
    store = reset_amount_spent_of_all_plans C s.store;
    remaining_gauge = pos o.limit_total;
    unique_spending_plans_counter = λ tier. 0;
    reset = get_reset_timestamp (λ i. now) o.limit_duration s.reset;
  }

  no_amount : (s : C.Store) (id : Text) → spent C (reset_amount_spent_of_all_plans C s) id ≡ 0
  no_amount s id = let e = reset_amount C s id in ground (arith, e)

  reset_limiter-renewed :
      (now : ℕ) (s : HbarLimitService C o) (ip : Text) (po : HbarSpendingPlan)
      → Linked C o s.store o.operator_address po
      → reset_limiter C o now s ip ≡ renewed now s
  unfolding reset_limiter renewed
  reset_limiter-renewed now s ip po lo =
      let s₁ : HbarLimitService C o = record s {
        store = reset_amount_spent_of_all_plans C s.store;
      } in
      let budget =
        get_remaining_budget_lem C o now s₁ ip po (reset-Linked s.store o.operator_address po lo) in
      let full = sub_zero o.limit_total (spent C s₁.store po.id) (no_amount s.store po.id) in
      ground (arith, budget, full)

  -- When the operator has a plan and the duration is not 0, `resetLimiter` leaves no amount spent for
  -- any plan, keeps the plans and the links of the addresses, sets the gauge to the whole budget and
  -- the counters of plans to 0, and moves the reset time by whole durations to a time that is not in
  -- the past.
  pub reset_limiter_lem :
      (now : ℕ) (s : HbarLimitService C o) (ip : Text) (po : HbarSpendingPlan)
      → 0 < o.limit_duration
      → Linked C o s.store o.operator_address po
      → let s' = reset_limiter C o now s ip in
        ((x : Text) → spent C s'.store x ≡ 0)
        × ((e : Text) (p : HbarSpendingPlan) → Linked C o s.store e p → Linked C o s'.store e p)
        × (s'.remaining_gauge ≡ pos o.limit_total)
        × ((t : SubscriptionTier) → s'.unique_spending_plans_counter t ≡ 0)
        × (now ≤ s'.reset)
        × ((k : ℕ) × (s'.reset ≡ s.reset + k * o.limit_duration))
  unfolding renewed
  reset_limiter_lem now s ip po h lo =
      let (r, _, at, end) =
        advance_lem (λ i. now) o.limit_duration s.reset h (λ i. omega arith) (omega arith) in
      rw (reset_limiter-renewed now s ip po lo) (
        λ x. no_amount s.store x,
        λ e p l. reset-Linked s.store e p l,
        refl,
        λ t. refl,
        omega (arith, at, end.not_past),
        (end.rounds, at ∙ end.on_grid),
      )
