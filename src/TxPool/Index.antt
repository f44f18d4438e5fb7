-- ===== src/TxPool/Index.antt =====
-- The global index against the lists of the addresses.
use mpcq_json_rpc_relay.Prelude.{
  ◌≡◌, refl, Bool, true, false, some, List, [], ◌∷◌, Text, lookup, insert, if◌then◌else◌, arith,
  lookup-insert, lookup-remove, text_eq, text_eq_iff, Option-cases, inl, inr, Bool-cases,
}
use mpcq_json_rpc_relay.Prelude.Sets.{
  has, add, push_end, delete, has-add, has-delete, Distinct, Distinct-add, Distinct-delete,
}
use mpcq_json_rpc_relay.TxPool.{
  LocalPendingTransactionStorage, is_nil, init, add_to_list, remove_from_list,
  get_transaction_payloads,
}

-- The payload is on the address's list.
abbrev pub held : LocalPendingTransactionStorage → Text → Text → Bool
held s addr rlp = has rlp (get_transaction_payloads s addr)

is_nil-add : (x : Text) (s : List Text) → is_nil (add x s) ≡ false
unfolding add push_end has
is_nil-add x [] = refl
is_nil-add x (y ∷ s) = ground arith

-- The payloads of an address after a payload is added for an address.
pub payloads-add_to_list :
    (s : LocalPendingTransactionStorage) (addr rlp other : Text)
    → get_transaction_payloads (add_to_list s addr rlp) other ≡ (
        if text_eq addr other
        then add rlp (get_transaction_payloads s addr)
        else get_transaction_payloads s other)
unfolding add_to_list get_transaction_payloads
payloads-add_to_list s addr rlp other = elim (Option-cases (lookup addr s.pending_transactions)) [
  | inl e ↦ ground (
    arith,
    lookup-insert addr addr [] s.pending_transactions,
    lookup-insert addr other [] s.pending_transactions,
    lookup-insert addr other (add rlp []) (insert addr [] s.pending_transactions),
    text_eq_iff addr addr,
    text_eq_iff addr other,
  )
  | inr (txs, e) ↦ ground (arith, lookup-insert addr other (add rlp txs) s.pending_transactions)
]

pub payloads-remove_from_list :
    (s : LocalPendingTransactionStorage) (addr rlp other : Text)
    → get_transaction_payloads (remove_from_list s addr rlp) other ≡ (
        if text_eq addr other
        then delete rlp (get_transaction_payloads s addr)
        else get_transaction_payloads s other)
unfolding remove_from_list get_transaction_payloads delete
payloads-remove_from_list s addr rlp other =
    elim (Option-cases (lookup addr s.pending_transactions)) [
      | inl e ↦ ground (arith, text_eq_iff addr other)
      | inr (txs, e) ↦ ground (
        arith,
        lookup-insert addr other (delete rlp txs) s.pending_transactions,
        lookup-remove addr other s.pending_transactions,
      )
    ]

-- The index is the union of the lists, no payload is on two lists, no set is kept empty.
pub record IsIndexed (s : LocalPendingTransactionStorage) : Type 0 where
  pub indexed : (a r : Text) → held s a r ≡ true → has r s.global_transaction_index ≡ true
  pub owned :
      (r : Text) → has r s.global_transaction_index ≡ true → (a : Text) × (held s a r ≡ true)
  pub single : (a b r : Text) → held s a r ≡ true → held s b r ≡ true → a ≡ b
  pub distinct : (a : Text) → Distinct (get_transaction_payloads s a)
  pub global_distinct : Distinct s.global_transaction_index
  pub kept :
      (a : Text) (txs : List Text) → lookup a s.pending_transactions ≡ some txs → is_nil txs ≡ false

-- No list but that of `addr` has the payload, as when `addr` is its sender.
abbrev pub OnlyOf : LocalPendingTransactionStorage → Text → Text → Type 0
OnlyOf s addr rlp = (b : Text) → held s b rlp ≡ true → b ≡ addr

pub init-IsIndexed : IsIndexed init
unfolding init get_transaction_payloads lookup has
init-IsIndexed = record {
  indexed = λ a r h. h;
  owned = λ r h. absurd (ground arith);
  single = λ a b r h k. absurd (ground arith);
  distinct = λ a. tt;
  global_distinct = tt;
  kept = λ a txs h. ground arith;
}

module _ (s : LocalPendingTransactionStorage) (addr rlp : Text) where
  pub global-add :
      (add_to_list s addr rlp).global_transaction_index ≡ add rlp s.global_transaction_index
  unfolding add_to_list
  global-add = refl

  pub global-remove :
      (remove_from_list s addr rlp).global_transaction_index ≡ delete rlp s.global_transaction_index
  unfolding remove_from_list
  global-remove = refl

  pub held-add :
      (a r : Text)
      → held (add_to_list s addr rlp) a r
        ≡ (if text_eq addr a then (if text_eq rlp r then true else held s addr r) else held s a r)
  held-add a r =
      ground
        (arith, payloads-add_to_list s addr rlp a, has-add rlp r (get_transaction_payloads s addr))

  pub held-remove :
      (a r : Text)
      → held (remove_from_list s addr rlp) a r
        ≡ (if text_eq addr a then (if text_eq rlp r then false else held s addr r) else held s a r)
  held-remove a r = ground (
    arith,
    payloads-remove_from_list s addr rlp a,
    has-delete rlp r (get_transaction_payloads s addr),
  )

module _ (s : LocalPendingTransactionStorage) (addr rlp : Text) (v : IsIndexed s)
    (o : OnlyOf s addr rlp) where
  kept-add :
      (a : Text) (txs : List Text)
      → lookup a (add_to_list s addr rlp).pending_transactions ≡ some txs
      → is_nil txs ≡ false
  unfolding add_to_list
  kept-add a txs h = elim (Option-cases (lookup addr s.pending_transactions)) [
    | inl e ↦ ground (
      arith,
      v.kept a txs,
      is_nil-add rlp [],
      text_eq_iff addr addr,
      lookup-insert addr addr [] s.pending_transactions,
      lookup-insert addr a [] s.pending_transactions,
      lookup-insert addr a (add rlp []) (insert addr [] s.pending_transactions),
    )
    | inr (us, e) ↦ ground (
      arith,
      v.kept a txs,
      is_nil-add rlp us,
      lookup-insert addr a (add rlp us) s.pending_transactions,
    )
  ]

  kept-remove :
      (a : Text) (txs : List Text)
      → lookup a (remove_from_list s addr rlp).pending_transactions ≡ some txs
      → is_nil txs ≡ false
  unfolding remove_from_list
  kept-remove a txs h = elim (Option-cases (lookup addr s.pending_transactions)) [
    | inl e ↦ ground (arith, v.kept a txs)
    | inr (us, e) ↦ ground (
      arith,
      v.kept a txs,
      lookup-insert addr a (delete rlp us) s.pending_transactions,
      lookup-remove addr a s.pending_transactions,
    )
  ]

  -- To add a payload that no other address holds keeps the storage consistent: the index holds
  -- exactly the payloads of the addresses, each of one address and once, and no list is empty.
  pub add_to_list-IsIndexed : IsIndexed (add_to_list s addr rlp)
  add_to_list-IsIndexed = record {
    indexed = λ a r h. ground (
      arith,
      held-add s addr rlp a r,
      v.indexed a r,
      v.indexed addr r,
      global-add s addr rlp,
      has-add rlp r s.global_transaction_index,
    );
    owned = λ r h. elim (Bool-cases (text_eq rlp r)) [
      | inl same ↦ (addr, ground (arith, held-add s addr rlp addr r, text_eq_iff addr addr))
      | inr other ↦
          let (a, ha) =
            v.owned r
              (ground (arith, global-add s addr rlp, has-add rlp r s.global_transaction_index)) in
          (a, ground (arith, held-add s addr rlp a r, text_eq_iff addr a))
    ];
    single = λ a b r h k. ground (
      arith,
      held-add s addr rlp a r,
      held-add s addr rlp b r,
      v.single a b r,
      v.single a addr r,
      v.single addr b r,
      text_eq_iff addr a,
      text_eq_iff addr b,
      text_eq_iff rlp r,
      o a,
      o b,
    );
    distinct = λ a. elim (Bool-cases (text_eq addr a)) [
      | inl e ↦ rw (payloads-add_to_list s addr rlp a, e) (Distinct-add rlp _ (v.distinct addr))
      | inr e ↦ rw (payloads-add_to_list s addr rlp a, e) (v.distinct a)
    ];
    global_distinct = rw (global-add s addr rlp) (Distinct-add rlp _ v.global_distinct);
    kept = kept-add;
  }

  -- To remove a payload from an address keeps a consistent storage consistent, when no other address
  -- holds the payload.
  pub remove_from_list-IsIndexed : IsIndexed (remove_from_list s addr rlp)
  remove_from_list-IsIndexed = record {
    indexed = λ a r h. ground (
      arith,
      held-remove s addr rlp a r,
      v.indexed a r,
      v.indexed addr r,
      global-remove s addr rlp,
      has-delete rlp r s.global_transaction_index,
      text_eq_iff rlp r,
      text_eq_iff addr a,
      o a,
    );
    owned = λ r h.
        let (a, ha) =
          v.owned r (
            ground
              (arith, global-remove s addr rlp, has-delete rlp r s.global_transaction_index)) in
        (
          a,
          ground (
            arith,
            held-remove s addr rlp a r,
            global-remove s addr rlp,
            has-delete rlp r s.global_transaction_index,
            text_eq_iff addr a,
          ),
        );
    single = λ a b r h k. ground (
      arith,
      held-remove s addr rlp a r,
      held-remove s addr rlp b r,
      v.single a b r,
      v.single a addr r,
      v.single addr b r,
      text_eq_iff addr a,
      text_eq_iff addr b,
    );
    distinct = λ a. elim (Bool-cases (text_eq addr a)) [
      | inl e ↦
          rw (payloads-remove_from_list s addr rlp a, e) (Distinct-delete rlp _ (v.distinct addr))
      | inr e ↦ rw (payloads-remove_from_list s addr rlp a, e) (v.distinct a)
    ];
    global_distinct = rw (global-remove s addr rlp) (Distinct-delete rlp _ v.global_distinct);
    kept = kept-remove;
  }
