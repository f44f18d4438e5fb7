-- ===== src/TxPool/Refinement.antt =====
-- The two storages of pending transactions against one abstract pool: which payloads an address has,
-- and which there are at all, without an order.
use mpcq_json_rpc_relay.Prelude.{
  ℕ, ◌<◌, ap, ◌∙◌, ◌≡◌, ◌⊎◌, ◌||◌, refl, Bool, true, false, List, [], ◌∷◌, Text, codes, text_eq,
  text_eq_iff, text_eq_refl, if◌then◌else◌, length, arith, inl, inr, starts_with, lookup,
}
use mpcq_json_rpc_relay.Prelude.Sets.{
  has, delete, Distinct, has-add, has-delete, length-delete, Distinct-delete,
}
use mpcq_json_rpc_relay.TxPool
use mpcq_json_rpc_relay.TxPool.{LocalPendingTransactionStorage}
use mpcq_json_rpc_relay.TxPool.Index.{held, held-add, held-remove, global-add, global-remove}
use mpcq_json_rpc_relay.TxPool.Redis
use mpcq_json_rpc_relay.TxPool.Redis.{RedisSets, key_prefix, key_for, global_pending_txs_key}

-- The abstract pool.
pub record Pending : Type 0 where
  pub of_address : Text → Text → Bool
  pub at_all : Text → Bool

-- The calls that change a storage.
pub data Op : Type 0 where
  save drop : Text → Text → Op
  drop_all : Op

abbrev pub apply : Pending → Op → Pending
apply p (save a r) = record {
  of_address = λ b s.
      if text_eq a b then (if text_eq r s then true else p.of_address b s) else p.of_address b s;
  at_all = λ s. if text_eq r s then true else p.at_all s;
}
apply p (drop a r) = record {
  of_address = λ b s.
      if text_eq a b then (if text_eq r s then false else p.of_address b s) else p.of_address b s;
  at_all = λ s. if text_eq r s then false else p.at_all s;
}
apply p drop_all = record { of_address = λ b s. false; at_all = λ s. false }

abbrev pub local_step : LocalPendingTransactionStorage → Op → LocalPendingTransactionStorage
local_step s (save a r) = TxPool.add_to_list s a r
local_step s (drop a r) = TxPool.remove_from_list s a r
local_step s drop_all = TxPool.remove_all s

-- Two sets of the same elements have the same size.
pub same_size :
    (xs ys : List Text)
    → Distinct xs
    → Distinct ys
    → ((z : Text) → has z xs ≡ has z ys)
    → length xs ≡ length ys
unfolding has
same_size [] [] dx dy h = refl
same_size [] (y ∷ ys) dx dy h = absurd (ground (arith, h y, text_eq_refl y))
same_size (x ∷ xs) ys dx dy h =
    let rest =
      same_size xs (delete x ys) dx.1 (Distinct-delete x ys dy)
        (λ z. ground (arith, h z, has-delete x z ys, text_eq_iff x z, dx.0)) in
    ground (arith, rest, length-delete x ys dy, h x, text_eq_refl x)

-- The local storage stands for an abstract pool.
pub record Represents (s : LocalPendingTransactionStorage) (p : Pending) : Type 0 where
  pub lists : (a r : Text) → held s a r ≡ p.of_address a r
  pub index : (r : Text) → has r s.global_transaction_index ≡ p.at_all r

pub local_step-Represents :
    (s : LocalPendingTransactionStorage) (p : Pending) (op : Op)
    → Represents s p
    → Represents (local_step s op) (apply p op)
unfolding TxPool.remove_all TxPool.get_transaction_payloads lookup has
local_step-Represents s p (save a r) h = record {
  lists = λ b t. ground (arith, held-add s a r b t, h.lists a t, h.lists b t, text_eq_iff a b);
  index = λ t. ground (arith, global-add s a r, has-add r t s.global_transaction_index, h.index t);
}
local_step-Represents s p (drop a r) h = record {
  lists = λ b t. ground (arith, held-remove s a r b t, h.lists a t, h.lists b t, text_eq_iff a b);
  index = λ t.
      ground (arith, global-remove s a r, has-delete r t s.global_transaction_index, h.index t);
}
local_step-Represents s p drop_all h = record { lists = λ a r. refl; index = λ r. refl }

-- No address of a call is the text `global`, whose key is that of all payloads in Redis.
abbrev pub IsAddress : Text → Type 0
IsAddress a = text_eq a (codes "global") ≡ false

abbrev pub HasAddress : Op → Type 0
HasAddress (save a r) = IsAddress a
HasAddress (drop a r) = IsAddress a
HasAddress drop_all = Unit

text_eq_comm : (a b : Text) → text_eq a b ≡ text_eq b a
text_eq_comm a b = ground (arith, text_eq_iff a b, text_eq_iff b a)

keys-eq : (a b : Text) → text_eq (key_for a) (key_for b) ≡ text_eq a b
unfolding key_for text_eq
keys-eq a b = refl

global_key-eq : (a : Text) → text_eq (key_for a) global_pending_txs_key ≡ text_eq a (codes "global")
unfolding key_for global_pending_txs_key text_eq
global_key-eq a = refl

prefixed : (a : Text) → starts_with (key_for a) key_prefix ≡ true
unfolding key_for starts_with
prefixed a = refl

global_prefixed : starts_with global_pending_txs_key key_prefix ≡ true
unfolding global_pending_txs_key starts_with
global_prefixed = refl

-- No key, or some keys.
pub keys-cases : (ks : List Text) → (ks ≡ []) ⊎ ((k : Text) × (more : List Text) × (ks ≡ k ∷ more))
keys-cases [] = inl refl
keys-cases (k ∷ more) = inr (k, more, refl)

module _ (R : RedisSets) (ttl : ℕ) (positive : 0 < ttl) where
  open R use {Db, s_members}

  abbrev pub redis_step : ℕ → Db → Op → Db
  redis_step now d (save a r) = Redis.add_to_list R ttl now d a r
  redis_step now d (drop a r) = Redis.remove_from_list R ttl now d a r
  redis_step now d drop_all = Redis.remove_all R ttl now d

  -- The sets in Redis stand for an abstract pool.
  pub record RedisRepresents (now : ℕ) (d : Db) (p : Pending) : Type 0 where
    pub lists :
        (a r : Text)
        → IsAddress a
        → has r (Redis.get_transaction_payloads R ttl now d a) ≡ p.of_address a r
    pub index : (r : Text) → has r (Redis.get_all_transaction_payloads R ttl now d) ≡ p.at_all r

  has-add_to_list :
      (now : ℕ) (d : Db) (a r j y : Text)
      → has y (s_members now (Redis.add_to_list R ttl now d a r) j) ≡ (
          if text_eq (key_for a) j || text_eq global_pending_txs_key j
          then (if text_eq r y then true else has y (s_members now d j))
          else has y (s_members now d j))
  unfolding Redis.add_to_list
  has-add_to_list now d a r j y =
      let k = key_for a in
      let g = global_pending_txs_key in
      let d₁ = R.s_add now d k r in
      let d₂ = R.expire now d₁ k ttl in
      let d₃ = R.s_add now d₂ g r in
      ap (has y) (R.s_members-expire now d₃ g j ttl positive)
      ∙ R.has-s_add now d₂ g r j y
      ∙ ap (λ b. if text_eq g j then (if text_eq r y then true else b) else b)
          (ap (has y) (R.s_members-expire now d₁ k j ttl positive) ∙ R.has-s_add now d k r j y)
      ∙ ground arith

  has-remove_from_list :
      (now : ℕ) (d : Db) (a r j y : Text)
      → has y (s_members now (Redis.remove_from_list R ttl now d a r) j) ≡ (
          if text_eq (key_for a) j || text_eq global_pending_txs_key j
          then (if text_eq r y then false else has y (s_members now d j))
          else has y (s_members now d j))
  unfolding Redis.remove_from_list
  has-remove_from_list now d a r j y = rw (R.has-s_rem, R.has-s_rem) (ground arith)

  has-remove_all :
      (now : ℕ) (d : Db) (k y : Text)
      → starts_with k key_prefix ≡ true
      → has y (s_members now (Redis.remove_all R ttl now d) k) ≡ false
  unfolding Redis.remove_all has
  has-remove_all now d k y h = elim (keys-cases (R.keys now d key_prefix)) [
    | inl none_found ↦
        rw (Redis.remove_all, none_found)
          (ground (arith, R.has-keys now d key_prefix k y, none_found, h))
    | inr (j, more, found) ↦
        rw (Redis.remove_all, found)
          (ground
            (arith, R.has-unlink now d (j ∷ more) k y, R.has-keys now d key_prefix k y, found, h))
  ]

  pub redis_step-RedisRepresents :
      (now : ℕ) (d : Db) (p : Pending) (op : Op)
      → HasAddress op
      → RedisRepresents now d p
      → RedisRepresents now (redis_step now d op) (apply p op)
  unfolding Redis.get_transaction_payloads Redis.get_all_transaction_payloads
  redis_step-RedisRepresents now d p (save a r) is h = record {
    lists = λ b t ib. ground (
      arith,
      has-add_to_list now d a r (key_for b) t,
      keys-eq a b,
      global_key-eq b,
      text_eq_comm global_pending_txs_key (key_for b),
      h.lists b t ib,
    );
    index = λ t. ground (
      arith,
      has-add_to_list now d a r global_pending_txs_key t,
      text_eq_refl global_pending_txs_key,
      h.index t,
    );
  }
  redis_step-RedisRepresents now d p (drop a r) is h = record {
    lists = λ b t ib. ground (
      arith,
      has-remove_from_list now d a r (key_for b) t,
      keys-eq a b,
      global_key-eq b,
      text_eq_comm global_pending_txs_key (key_for b),
      h.lists b t ib,
    );
    index = λ t. ground (
      arith,
      has-remove_from_list now d a r global_pending_txs_key t,
      text_eq_refl global_pending_txs_key,
      h.index t,
    );
  }
  redis_step-RedisRepresents now d p drop_all is h = record {
    lists = λ a r i. has-remove_all now d (key_for a) r (prefixed a);
    index = λ r. has-remove_all now d global_pending_txs_key r global_prefixed;
  }
