-- ===== src/Hbar/Spending.antt =====
-- `addExpense` and `shouldLimit` of HbarLimitService when the operator and the signer have plans:
-- what is charged to whom, and what is answered.
use mpcq_json_rpc_relay.Prelude.{
  ℕ, ◌+◌, ◌≡◌, refl, true, false, some, List, [], ◌∷◌, Text, arith, ap, text_eq, text_eq_refl, ◌∙◌,
  is_empty,
}
use mpcq_json_rpc_relay.Prelude.Int.{pos, ◌-ℤ◌}
use mpcq_json_rpc_relay.Prelude.Results.{ok, err}
use mpcq_json_rpc_relay.Hbar.Keys.{evm_address_key, HasNoColon, amount_spent-ne-evm}
use mpcq_json_rpc_relay.Hbar.Cache.{HbarSpendingPlan, link, CacheClient}
use mpcq_json_rpc_relay.Hbar.Plans.{
  evm_address_not_found, DetailedPlan, find_by_evm_address, find_by_ip_address,
}
use mpcq_json_rpc_relay.Hbar.Limiter.{
  Config, HbarLimitService, is_enabled, get_spending_plan_by_evm_address,
  get_spending_plan_by_ip_address, plan_of_ip, get_spending_plan, get_operator_spending_plan,
  get_remaining_budget, spend, count_unique, charge, charge_signer, charge_both, add_expense,
}
use mpcq_json_rpc_relay.Hbar.Amounts.{
  spent, IsKept, find_by_id_with_details_lem, Charged, add_to_amount_spent_lem, share,
  Charged-spent, Charged-IsKept,
}

module _ (C : CacheClient) (o : Config) where
  open C use {Store, get}

  -- The address is linked to the plan `p`, which is kept.
  pub record Linked (s : Store) (evm_address : Text) (p : HbarSpendingPlan) : Type 0 where
    pub given : is_empty evm_address ≡ false
    pub linked : get s (evm_address_key evm_address) ≡ some (link p.id)
    pub kept : IsKept C s p

  unfoldable pub details : Store → HbarSpendingPlan → DetailedPlan
  details s p = record { stored = p; spending_history = []; amount_spent = spent C s p.id }

  pub Charged-Linked :
      (s s' : Store) (id : Text) (cost : ℕ)
      → HasNoColon id
      → Charged C s s' id cost
      → (e : Text) (q : HbarSpendingPlan) → Linked s e q
      → Linked s' e q
  Charged-Linked s s' id cost hid c e q l = record {
    given = l.given;
    linked = c.others _ (amount_spent-ne-evm id e) ∙ l.linked;
    kept = Charged-IsKept C s s' id cost hid c q l.kept;
  }

  pub get_spending_plan_lem :
      (s : Store) (e ip : Text) (p : HbarSpendingPlan)
      → Linked s e p
      → get_spending_plan C o s e ip ≡ some (details s p)
  unfolding get_spending_plan details find_by_evm_address get_spending_plan_by_evm_address
  get_spending_plan_lem s e ip p l =
      ground (arith, l.given, l.linked, find_by_id_with_details_lem C s p l.kept)

  operator_plan_lem :
      (now : ℕ) (s : HbarLimitService C o) (ip : Text) (p : HbarSpendingPlan)
      → Linked s.store o.operator_address p
      → get_operator_spending_plan C o now s ip ≡ (s, ok (details s.store p))
  unfolding get_operator_spending_plan
  operator_plan_lem now s ip p l =
      ground (arith, get_spending_plan_lem s.store o.operator_address ip p l)

  pub get_remaining_budget_lem :
      (now : ℕ) (s : HbarLimitService C o) (ip : Text) (p : HbarSpendingPlan)
      → Linked s.store o.operator_address p
      → get_remaining_budget C o now s ip ≡ (s, pos o.limit_total -ℤ pos (spent C s.store p.id))
  unfolding get_remaining_budget details
  get_remaining_budget_lem now s ip p l = rw (operator_plan_lem now s ip p l) refl

  spend_lem :
      (s : HbarLimitService C o) (p : HbarSpendingPlan) (cost : ℕ)
      → IsKept C s.store p
      → (s' : Store) × (spend C o s p.id cost ≡ (record s { store = s' }, ok tt))
        × Charged C s.store s' p.id cost
  unfolding spend
  spend_lem s p cost kept =
      let (s', e, c) = add_to_amount_spent_lem C s.store p cost o.limit_duration kept in
      (s', ground (arith, e), c)

  charge_lem :
      (s : HbarLimitService C o) (p : HbarSpendingPlan) (cost : ℕ)
      → IsKept C s.store p
      → (s' : HbarLimitService C o) × (charge C o s (details s.store p) cost ≡ (s', ok tt))
        × Charged C s.store s'.store p.id cost
        × (s'.remaining_gauge ≡ s.remaining_gauge)
        × (s'.reset ≡ s.reset)
  unfolding charge details count_unique
  charge_lem s p cost kept =
      let (t, e, c) = spend_lem (count_unique C o s (details s.store p)) p cost kept in
      (_, e, c, refl, refl)

  -- When the limiter is enabled and the operator and the signer have plans, an expense is charged to
  -- the operator's plan and to the signer's, to a plan that is both of them
  -- twice, and to nobody else; the gauge shows the operator's remaining budget.
  pub add_expense_lem :
      (now : ℕ) (s : HbarLimitService C o) (cost : ℕ) (e ip : Text) (po ps : HbarSpendingPlan)
      → is_enabled C o ≡ true
      → Linked s.store o.operator_address po
      → Linked s.store e ps
      → (s' : HbarLimitService C o) × (add_expense C o now s cost e ip ≡ (s', ok tt))
        × ((x : Text)
            → HasNoColon x
            → spent C s'.store x ≡ spent C s.store x + share C po.id x cost + share C ps.id x cost)
        × ((a : Text) (q : HbarSpendingPlan) → Linked s.store a q → Linked s'.store a q)
        × (s'.remaining_gauge ≡ pos o.limit_total -ℤ pos (spent C s.store po.id + cost))
        × (s'.reset ≡ s.reset)
  unfolding add_expense charge_both charge_signer
  add_expense_lem now s cost e ip po ps on lo ls =
      let (t₁, e₁, c₁) = spend_lem s po cost lo.kept in
      let s₁ : HbarLimitService C o = record s { store = t₁ } in
      let lo₁ = Charged-Linked s.store t₁ po.id cost lo.kept.no_colon c₁ o.operator_address po lo in
      let ls₁ = Charged-Linked s.store t₁ po.id cost lo.kept.no_colon c₁ e ps ls in
      let gauge = pos o.limit_total -ℤ pos (spent C t₁ po.id) in
      let s₂ : HbarLimitService C o = record s₁ { remaining_gauge = gauge } in
      let (s₃, e₃, c₃, g, r) = charge_lem s₂ ps cost ls₁.kept in
      (
        s₃,
        ground (
          arith,
          on,
          operator_plan_lem now s ip po lo,
          e₁,
          get_remaining_budget_lem now s₁ ip po lo₁,
          get_spending_plan_lem t₁ e ip ps ls₁,
          e₃,
        ),
        λ x hx.
            Charged-spent C t₁ s₃.store ps.id cost ls.kept.no_colon c₃ x hx
            ∙ ap (λ n. n + share C ps.id x cost)
                (Charged-spent C s.store t₁ po.id cost lo.kept.no_colon c₁ x hx),
        λ a q l.
            Charged-Linked t₁ s₃.store ps.id cost ls.kept.no_colon c₃ a q
              (Charged-Linked s.store t₁ po.id cost lo.kept.no_colon c₁ a q l),
        g ∙ ap (λ n. pos o.limit_total -ℤ pos n) c₁.own,
        r,
      )

  -- A call of `addExpense`, with the plan of its signer.
  pub record Expense : Type 0 where
    pub now : ℕ
    pub cost : ℕ
    pub signer : Text
    pub ip_address : Text
    pub signer_plan : HbarSpendingPlan

  unfoldable pub add_all : HbarLimitService C o → List Expense → HbarLimitService C o
  unfolding add_expense
  add_all s [] = s
  add_all s (x ∷ xs) = add_all (add_expense C o x.now s x.cost x.signer x.ip_address).0 xs

  unfoldable pub total_cost : List Expense → ℕ
  total_cost [] = 0
  total_cost (x ∷ xs) = x.cost + total_cost xs

  -- Each signer is linked to its plan, and none of these plans is the operator's.
  unfoldable pub HaveSigners : Store → HbarSpendingPlan → List Expense → Type 0
  HaveSigners s po [] = Unit {0}
  HaveSigners s po (x ∷ xs) =
      (Linked s x.signer x.signer_plan)
      × (text_eq x.signer_plan.id po.id ≡ false)
      × HaveSigners s po xs

  HaveSigners-mono :
      (s s' : Store) (po : HbarSpendingPlan)
      → ((a : Text) (q : HbarSpendingPlan) → Linked s a q → Linked s' a q)
      → (xs : List Expense) → HaveSigners s po xs
      → HaveSigners s' po xs
  unfolding HaveSigners
  HaveSigners-mono s s' po keep [] h = tt
  HaveSigners-mono s s' po keep (x ∷ xs) (l, ne, h) =
      (keep x.signer x.signer_plan l, ne, HaveSigners-mono s s' po keep xs h)

  -- When the limiter is enabled, the operator and the signers have plans, and no signer has the
  -- operator's, the operator's amount grows by the sum of the expenses.
  pub add_all-spent :
      (s : HbarLimitService C o) (po : HbarSpendingPlan) (xs : List Expense)
      → is_enabled C o ≡ true
      → Linked s.store o.operator_address po
      → HaveSigners s.store po xs
      → spent C (add_all s xs).store po.id ≡ spent C s.store po.id + total_cost xs
  unfolding add_all total_cost HaveSigners share
  add_all-spent s po [] on lo h = ground arith
  add_all-spent s po (x ∷ xs) on lo (lx, ne, h) =
      let (s', e, amounts, keep, g, r) =
        add_expense_lem x.now s x.cost x.signer x.ip_address po x.signer_plan on lo lx in
      let here = amounts po.id lo.kept.no_colon in
      let same = text_eq_refl po.id in
      let rest =
        add_all-spent s' po xs on (keep o.operator_address po lo)
          (HaveSigners-mono s.store s'.store po keep xs h) in
      ground (arith, e, here, same, ne, rest)

  -- When the operator's address is linked to no plan and the IP address of a request to one that is
  -- kept, that plan counts as the operator's, no plan is made for the operator, and the remaining
  -- budget is what that plan leaves of it.
  pub get_operator_spending_plan-falls_back :
      (now : ℕ) (s : HbarLimitService C o) (ip : Text) (p : HbarSpendingPlan)
      → find_by_evm_address C s.store o.operator_address ≡ err evm_address_not_found
      → is_empty ip ≡ false
      → find_by_ip_address C s.store ip ≡ ok p.id
      → IsKept C s.store p
      → (get_operator_spending_plan C o now s ip ≡ (s, ok (details s.store p)))
        × (get_remaining_budget C o now s ip ≡ (s, pos o.limit_total -ℤ pos (spent C s.store p.id)))
  unfolding get_operator_spending_plan get_spending_plan plan_of_ip get_spending_plan_by_ip_address
      get_spending_plan_by_evm_address get_remaining_budget details
  get_operator_spending_plan-falls_back now s ip p none_linked given at kept =
      let d = find_by_id_with_details_lem C s.store p kept in
      (ground (arith, none_linked, given, at, d), ground (arith, none_linked, given, at, d))
