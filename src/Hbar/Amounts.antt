-- ===== src/Hbar/Amounts.antt =====
-- What the operations of the plan repository do to the amounts, seen by plan id, and what they
-- leave alone.
use mpcq_json_rpc_relay.Prelude.{
  ℕ, ◌+◌, ◌≡◌, ◌≢◌, ◌⊎◌, inl, inr, sym, true, false, Option, none, some, [], Text, if◌then◌else◌,
  arith, text_eq, text_eq_iff, text_eq_refl, ◌∙◌, subst, Bool-cases,
}
use mpcq_json_rpc_relay.Prelude.Results.{ok}
use mpcq_json_rpc_relay.Hbar.Keys.{
  plan_key, amount_spent_key, HasNoColon, amount_spent_key-injective, amount_spent-ne-plan,
}
use mpcq_json_rpc_relay.Hbar.Cache.{HbarSpendingPlan, Value, plan, amount, CacheClient}
use mpcq_json_rpc_relay.Hbar.Plans.{
  as_amount, is_falsy, find_by_id_with_details, add_to_amount_spent,
}

-- No entry, or an amount.
abbrev pub IsAmount : Option Value → Type 0
IsAmount v = (v ≡ none) ⊎ ((n : ℕ) × (v ≡ some (amount n)))

there_lem : (v : Option Value) → IsAmount v → is_falsy v ≡ false → (n : ℕ) × (v ≡ some (amount n))
there_lem v (inl e) h = ground arith
there_lem v (inr a) h = a

module _ (C : CacheClient) where
  open C use {Store, get, set, delete, incr_by, keys}

  -- The amount that a plan has spent.
  abbrev pub spent : Store → Text → ℕ
  spent s id = as_amount (get s (amount_spent_key id))

  -- The plan is kept under its id, active, and its amount is one.
  pub record IsKept (s : Store) (p : HbarSpendingPlan) : Type 0 where
    pub stored : get s (plan_key p.id) ≡ some (plan p)
    pub active : p.active ≡ true
    pub no_colon : HasNoColon p.id
    pub amounts : IsAmount (get s (amount_spent_key p.id))

  pub find_by_id_with_details_lem :
      (s : Store) (p : HbarSpendingPlan)
      → IsKept s p
      → find_by_id_with_details C s p.id
        ≡ ok (record { stored = p; spending_history = []; amount_spent = spent s p.id })
  unfolding find_by_id_with_details
  find_by_id_with_details_lem s p k = ground (arith, k.stored, k.active)

  -- Only the amount of the plan `id` grows, by `cost`.
  pub record Charged (s s' : Store) (id : Text) (cost : ℕ) : Type 0 where
    pub own : spent s' id ≡ spent s id + cost
    pub own_amount : IsAmount (get s' (amount_spent_key id))
    pub others : (k : Text) → amount_spent_key id ≢ k → get s' k ≡ get s k

  pub add_to_amount_spent_lem :
      (s : Store) (p : HbarSpendingPlan) (cost ttl : ℕ)
      → IsKept s p
      → (s' : Store) × (add_to_amount_spent C s p.id cost ttl ≡ ok s') × Charged s s' p.id cost
  unfolding add_to_amount_spent
  add_to_amount_spent_lem s p cost ttl kept =
      let key = amount_spent_key p.id in
      elim (Bool-cases (is_falsy (get s key))) [
        | inl falsy ↦ (
          set s key (amount cost) ttl,
          ground (arith, kept.stored, kept.active),
          record {
            own = ground (arith, kept.amounts, C.get-set_self s key (amount cost) ttl);
            own_amount = inr (cost, C.get-set_self s key (amount cost) ttl);
            others = λ k ne. C.get-set_ne s key k (amount cost) ttl ne;
          },
        )
        | inr there ↦
            let (n, at) = there_lem (get s key) kept.amounts there in
            (
              incr_by s key cost,
              ground (arith, kept.stored, kept.active),
              record {
                own = ground (arith, at, C.get-incr_by_self s key n cost at);
                own_amount = inr (n + cost, C.get-incr_by_self s key n cost at);
                others = λ k ne. C.get-incr_by_ne s key k cost ne;
              },
            )
      ]

  -- What a charge to the plan `id` means for the plan `x`.
  unfoldable pub share : Text → Text → ℕ → ℕ
  share id x cost = if text_eq id x then cost else 0

  key-ne :
      (a b : Text)
      → HasNoColon a
      → HasNoColon b
      → text_eq a b ≡ false
      → amount_spent_key a ≢ amount_spent_key b
  key-ne a b ha hb h e =
      let same = (text_eq_iff a b).1 (amount_spent_key-injective a b ha hb e) in
      ground (arith, same, h)

  pub Charged-spent :
      (s s' : Store) (id : Text) (cost : ℕ)
      → HasNoColon id
      → Charged s s' id cost
      → (x : Text) → HasNoColon x
      → spent s' x ≡ spent s x + share id x cost
  unfolding share
  Charged-spent s s' id cost hid c x hx = elim (Bool-cases (text_eq id x)) [
    | inl e ↦
        let same = (text_eq_iff id x).0 e in
        subst (λ y. spent s' y ≡ spent s y + share id y cost) same
          (let refl_id = text_eq_refl id in ground (arith, c.own, refl_id))
    | inr e ↦ ground (arith, c.others _ (key-ne id x hid hx e))
  ]

  pub Charged-IsKept :
      (s s' : Store) (id : Text) (cost : ℕ)
      → HasNoColon id
      → Charged s s' id cost
      → (q : HbarSpendingPlan) → IsKept s q
      → IsKept s' q
  Charged-IsKept s s' id cost hid c q kept = record {
    stored = c.others _ (amount_spent-ne-plan id q.id kept.no_colon) ∙ kept.stored;
    active = kept.active;
    no_colon = kept.no_colon;
    amounts = elim (Bool-cases (text_eq id q.id)) [
      | inl e ↦
          subst (λ x. IsAmount (get s' (amount_spent_key x))) ((text_eq_iff id q.id).0 e)
            c.own_amount
      | inr e ↦ subst IsAmount (sym (c.others _ (key-ne id q.id hid kept.no_colon e))) kept.amounts
    ];
  }
