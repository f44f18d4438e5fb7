-- ===== src/RateLimit.antt =====
-- packages/relay/src/lib/services/rateLimiterService: the fixed-window limiter per IP address and
-- method (LruRateLimitStore.ts) and the service in front of it (rateLimiterService.ts).
pub mod Window
pub mod Quota
pub mod Service
pub mod Redis
pub mod RedisQuota
pub mod Counters
mod Examples
use mpcq_json_rpc_relay.Prelude.{
  ℕ, ◌+◌, ◌-◌, ◌≡◌, Bool, true, false, Option, none, some, List, [], ◌∷◌, Text, lookup, insert, ltb,
  if◌then◌else◌, ◌>>=◌,
}

-- One method of one address.
pub record MethodDatabase : Type 0 where
  pub method_name : Text
  pub remaining : ℕ
  pub total : ℕ

-- One address: when its window ends, and its methods.
pub record DatabaseEntry : Type 0 where
  pub reset : ℕ
  pub method_info : List (Text × MethodDatabase)

-- The store; `duration` is the length of a window in milliseconds.
pub record LruRateLimitStore : Type 0 where
  pub database : List (Text × DatabaseEntry)
  pub duration : ℕ

pub record RateLimitKey : Type 0 where
  pub ip : Text
  pub method : Text

pub init : ℕ → LruRateLimitStore
init duration = record { database = []; duration = duration }

pub check_ip_exist : LruRateLimitStore → Text → Bool
check_ip_exist s ip = elim (lookup ip s.database) [ none ↦ false | some _ ↦ true ]

pub set_new_ip : ℕ → LruRateLimitStore → Text → LruRateLimitStore
set_new_ip now s ip = record s {
  database = insert ip (record { reset = now + s.duration; method_info = [] }) s.database;
}

-- The reads and writes through `database[ip]` throw (`none`) when the address has no entry.
pub check_method_exist : LruRateLimitStore → Text → Text → Option Bool
check_method_exist s ip method = do
  entry ← lookup ip s.database
  some (elim (lookup method entry.method_info) [ none ↦ false | some _ ↦ true ])

pub set_new_method : LruRateLimitStore → Text → Text → ℕ → Option LruRateLimitStore
set_new_method s ip method total = do
  entry ← lookup ip s.database
  let info : MethodDatabase = record { method_name = method; remaining = total; total = total }
  let entry' = record entry { method_info = insert method info entry.method_info }
  some (record s { database = insert ip entry' s.database })

pub precheck : ℕ → LruRateLimitStore → Text → Text → ℕ → Option LruRateLimitStore
unfolding check_ip_exist set_new_ip check_method_exist set_new_method
precheck now s ip method total = do
  let s' = if check_ip_exist s ip then s else set_new_ip now s ip
  known ← check_method_exist s' ip method
  if known then some s' else set_new_method s' ip method total

pub should_reset : ℕ → LruRateLimitStore → Text → Option Bool
should_reset now s ip = do entry ← lookup ip s.database; some (ltb entry.reset now)

pub check_remaining : LruRateLimitStore → Text → Text → Option Bool
check_remaining s ip method = do
  entry ← lookup ip s.database
  info ← lookup method entry.method_info
  some (ltb 0 info.remaining)

pub decrease_remaining : LruRateLimitStore → Text → Text → Option LruRateLimitStore
decrease_remaining s ip method = do
  entry ← lookup ip s.database
  info ← lookup method entry.method_info
  let current = info.remaining
  let info' = record info { remaining = if ltb 0 current then current - 1 else 0 }
  let entry' = record entry { method_info = insert method info' entry.method_info }
  some (record s { database = insert ip entry' s.database })

-- The loop of `reset`: every method of the address gets its total back.
pub refill : List (Text × MethodDatabase) → List (Text × MethodDatabase)
refill [] = []
refill ((k, info) ∷ rest) = (k, record info { remaining = info.total }) ∷ refill rest

pub reset : ℕ → LruRateLimitStore → Text → Text → ℕ → Option LruRateLimitStore
reset now s ip method total = do
  entry ← lookup ip s.database
  let filled = refill entry.method_info
  info ← lookup method filled
  let info' = record info { remaining = total; total = total }
  let entry' : DatabaseEntry = record {
    reset = now + s.duration;
    method_info = insert method info' filled;
  }
  some (record s { database = insert ip entry' s.database })

-- The new store, and whether the request is limited. Every `Date.now()` of one call reads `now`.
pub increment_and_check :
    ℕ → LruRateLimitStore → RateLimitKey → ℕ → Option (LruRateLimitStore × Bool)
increment_and_check now s key limit = do
  s₁ ← precheck now s key.ip key.method limit
  expired ← should_reset now s₁ key.ip
  if expired
      then (do
        s₂ ← reset now s₁ key.ip key.method limit
        s₃ ← decrease_remaining s₂ key.ip key.method
        some (s₃, false))
      else (do
        left ← check_remaining s₁ key.ip key.method
        if left
            then (do s₂ ← decrease_remaining s₁ key.ip key.method; some (s₂, false))
            else some (s₁, true))
