-- ===== src/Hbar/Cache.antt =====
-- The cache behind the repositories: `ICacheClient` (clients/cache/ICacheClient.ts) as far as they
-- use it, with what they rely on while one call runs: no entry that is not named is evicted or runs
-- out.
use mpcq_json_rpc_relay.Prelude.{
  ℕ, ◌+◌, ◌≡◌, ◌≢◌, Bool, true, Option, none, some, List, Text, codes,
}
use mpcq_json_rpc_relay.Prelude.Sets.{has}
use mpcq_json_rpc_relay.Hbar.Keys.{amount_spent_key}

-- `SubscriptionTier` (db/types/hbarLimiter/subscriptionTier.ts).
pub data SubscriptionTier : Type 0 where
  basic extended privileged operator : SubscriptionTier

pub record HbarSpendingRecord : Type 0 where
  pub amount : ℕ
  pub timestamp : ℕ

-- `IHbarSpendingPlan` (db/types/hbarLimiter/hbarSpendingPlan.ts).
pub record HbarSpendingPlan : Type 0 where
  pub id : Text
  pub subscription_tier : SubscriptionTier
  pub created_at : ℕ
  pub active : Bool

-- What is kept under the keys: a plan, an amount spent, a history, the plan of an address.
pub data Value : Type 0 where
  plan : HbarSpendingPlan → Value
  amount : ℕ → Value
  history : List HbarSpendingRecord → Value
  link : Text → Value

pub record CacheClient : Type 1 where
  pub Store : Type 0
  pub get : Store → Text → Option Value
  -- The last argument is the time to live.
  pub set : Store → Text → Value → ℕ → Store
  pub delete : Store → Text → Store
  pub incr_by : Store → Text → ℕ → Store
  pub keys : Store → Text → List Text
  pub get-set_self : (s : Store) (k : Text) (v : Value) (ttl : ℕ) → get (set s k v ttl) k ≡ some v
  pub get-set_ne :
      (s : Store) (k j : Text) (v : Value) (ttl : ℕ) → k ≢ j → get (set s k v ttl) j ≡ get s j
  pub get-delete_self : (s : Store) (k : Text) → get (delete s k) k ≡ none
  pub get-delete_ne : (s : Store) (k j : Text) → k ≢ j → get (delete s k) j ≡ get s j
  pub get-incr_by_self :
      (s : Store) (k : Text) (n m : ℕ)
      → get s k ≡ some (amount n)
      → get (incr_by s k m) k ≡ some (amount (n + m))
  pub get-incr_by_ne : (s : Store) (k j : Text) (m : ℕ) → k ≢ j → get (incr_by s k m) j ≡ get s j
  -- The keys under the pattern of the amounts are amount keys, and all that have an entry.
  pub keys-amount_spent :
      (s : Store) (id : Text)
      → get s (amount_spent_key id) ≢ none
      → has (amount_spent_key id) (keys s (amount_spent_key (codes "*"))) ≡ true
  pub keys-amount_spent_only :
      (s : Store) (k : Text)
      → has k (keys s (amount_spent_key (codes "*"))) ≡ true
      → (id : Text) × (k ≡ amount_spent_key id)
