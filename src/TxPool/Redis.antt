-- ===== src/TxPool/Redis.antt =====
-- packages/relay/src/lib/services/transactionPoolService/RedisPendingTransactionStorage.ts. The
-- commands of Redis are a parameter; a transaction of MULTI and EXEC is the commands one after the
-- other, at one time. Times are in seconds, and `now` is when a command runs.
use mpcq_json_rpc_relay.Prelude.{
  ℕ, ◌+◌, ◌≤◌, ◌<◌, ◌⊎◌, Option, none, some, ltb, Bool, false, ◌≡◌, true, false, List, [], ◌∷◌,
  ◌++◌, Text, codes, text_eq, if◌then◌else◌, starts_with, length,
}
use mpcq_json_rpc_relay.Prelude.Sets.{has, Distinct}

-- A key that lives until a time, or without an end, is there.
abbrev pub is_alive : ℕ → Option ℕ → Bool
is_alive now none = true
is_alive now (some t) = ltb now t

-- What Redis documents of its commands on sets, of KEYS and UNLINK, and of EXPIRE: a key that has an
-- end is deleted then, and keeps its elements before. A command may create a key, without an end, or
-- delete one, but only EXPIRE gives an end.
pub record RedisSets : Type 1 where
  pub Db : Type 0
  pub s_add : ℕ → Db → Text → Text → Db
  pub s_rem : ℕ → Db → Text → Text → Db
  pub expire : ℕ → Db → Text → ℕ → Db
  pub s_members : ℕ → Db → Text → List Text
  pub s_card : ℕ → Db → Text → ℕ
  pub keys : ℕ → Db → Text → List Text
  pub unlink : ℕ → Db → List Text → Db
  pub until : Db → Text → Option ℕ
  pub has-s_add :
      (now : ℕ) (d : Db) (k x j y : Text)
      → has y (s_members now (s_add now d k x) j) ≡ (
          if text_eq k j
          then (if text_eq x y then true else has y (s_members now d j))
          else has y (s_members now d j))
  pub has-s_rem :
      (now : ℕ) (d : Db) (k x j y : Text)
      → has y (s_members now (s_rem now d k x) j) ≡ (
          if text_eq k j
          then (if text_eq x y then false else has y (s_members now d j))
          else has y (s_members now d j))
  pub s_members-expire :
      (now : ℕ) (d : Db) (k j : Text) (ttl : ℕ)
      → 0 < ttl
      → s_members now (expire now d k ttl) j ≡ s_members now d j
  pub s_card-s_members : (now : ℕ) (d : Db) (k : Text) → s_card now d k ≡ length (s_members now d k)
  pub s_members-Distinct : (now : ℕ) (d : Db) (k : Text) → Distinct (s_members now d k)
  pub has-keys :
      (now : ℕ) (d : Db) (p k y : Text)
      → has y (s_members now d k) ≡ true
      → starts_with k p ≡ true
      → has k (keys now d p) ≡ true
  pub has-unlink :
      (now : ℕ) (d : Db) (ks : List Text) (k y : Text)
      → has y (s_members now (unlink now d ks) k)
        ≡ (if has k ks then false else has y (s_members now d k))
  pub s_members-later :
      (now later : ℕ) (d : Db) (k : Text)
      → now ≤ later
      → is_alive later (until d k) ≡ true
      → s_members later d k ≡ s_members now d k
  pub s_members-expired :
      (now : ℕ) (d : Db) (k : Text) → is_alive now (until d k) ≡ false → s_members now d k ≡ []
  pub until-s_add :
      (now : ℕ) (d : Db) (k x j : Text)
      → (until (s_add now d k x) j ≡ until d j) ⊎ (until (s_add now d k x) j ≡ none)
  pub until-s_rem :
      (now : ℕ) (d : Db) (k x j : Text)
      → (until (s_rem now d k x) j ≡ until d j) ⊎ (until (s_rem now d k x) j ≡ none)
  pub until-unlink :
      (now : ℕ) (d : Db) (ks : List Text) (j : Text)
      → (until (unlink now d ks) j ≡ until d j) ⊎ (until (unlink now d ks) j ≡ none)
  pub until-expire :
      (now : ℕ) (d : Db) (k j y : Text) (ttl : ℕ)
      → has y (s_members now d k) ≡ true
      → until (expire now d k ttl) j ≡ (if text_eq k j then some (now + ttl) else until d j)

abbrev pub key_prefix : Text
key_prefix = codes "txpool:pending:"

unfoldable pub global_pending_txs_key : Text
global_pending_txs_key = codes "txpool:pending:global"

unfoldable pub key_for : Text → Text
key_for address = key_prefix ++ address

module _ (R : RedisSets) (storage_ttl : ℕ) where
  open R use {Db, s_add, s_rem, expire, s_members, s_card, keys, unlink}

  unfoldable pub add_to_list : ℕ → Db → Text → Text → Db
  unfolding key_for global_pending_txs_key
  add_to_list now d address rlp_hex =
      let address_key = key_for address in
      let d₁ = s_add now d address_key rlp_hex in
      let d₂ = expire now d₁ address_key storage_ttl in
      let d₃ = s_add now d₂ global_pending_txs_key rlp_hex in
      expire now d₃ global_pending_txs_key storage_ttl

  unfoldable pub remove_from_list : ℕ → Db → Text → Text → Db
  unfolding key_for global_pending_txs_key
  remove_from_list now d address rlp_hex =
      s_rem now (s_rem now d (key_for address) rlp_hex) global_pending_txs_key rlp_hex

  -- UNLINK is sent only when there is a key.
  unfoldable pub remove_all : ℕ → Db → Db
  remove_all now d = elim (keys now d key_prefix) [ [] ↦ d | k ∷ ks ↦ unlink now d (k ∷ ks) ]

  unfoldable pub get_list : ℕ → Db → Text → ℕ
  unfolding key_for
  get_list now d address = s_card now d (key_for address)

  unfoldable pub get_all_transaction_payloads : ℕ → Db → List Text
  unfolding global_pending_txs_key
  get_all_transaction_payloads now d = s_members now d global_pending_txs_key

  unfoldable pub get_transaction_payloads : ℕ → Db → Text → List Text
  unfolding key_for
  get_transaction_payloads now d address = s_members now d (key_for address)
