-- ===== src/RateLimit/Examples.antt =====
-- Runs of the limiter, and its theorems at a store with a window that ends at 1000.
use mpcq_json_rpc_relay.Prelude.{
  ℕ, ◌+◌, ◌-◌, ◌≡◌, refl, Bool, true, false, none, some, List, [], ◌∷◌, Text, codes, text_eq,
  lookup, insert, remove, arith,
}
use mpcq_json_rpc_relay.RateLimit.{
  DatabaseEntry, LruRateLimitStore, RateLimitKey, init, precheck, should_reset, check_remaining,
  decrease_remaining, refill, reset, increment_and_check,
}
use mpcq_json_rpc_relay.RateLimit.Quota.{Request, HasQuota, run, asked, passed, run-quota}
use mpcq_json_rpc_relay.RateLimit.Redis.{key_text, duration_seconds}
use mpcq_json_rpc_relay.RateLimit.RedisQuota
use mpcq_json_rpc_relay.RateLimit.Counters.{counters}
use mpcq_json_rpc_relay.RateLimit.Service.{should_rate_limit, serve, lru_store}

program : Unit {0}
unfolding init precheck should_reset check_remaining decrease_remaining refill reset
    increment_and_check lookup insert remove text_eq run should_rate_limit serve lru_store
program = tt

abbrev alice : Text
alice = codes "10.0.0.1"

abbrev eth_call : Text
eth_call = codes "eth_call"

abbrev call_key : RateLimitKey
call_key = record { ip = alice; method = eth_call }

abbrev open_entry : DatabaseEntry
open_entry = record {
  reset = 1000;
  method_info = (eth_call, record { method_name = eth_call; remaining = 2; total = 5 }) ∷ [];
}

abbrev open_store : LruRateLimitStore
open_store = record { database = (alice, open_entry) ∷ []; duration = 1000 }

abbrev three_calls : List Request
three_calls =
    record { now = 10; key = call_key; limit = 5 }
    ∷ record { now = 20; key = call_key; limit = 5 }
    ∷ record { now = 30; key = call_key; limit = 5 }
    ∷ []

open-HasQuota : HasQuota open_store alice eth_call 1000 2
unfolding lookup text_eq
open-HasQuota = (
  open_entry,
  record { method_name = eth_call; remaining = 2; total = 5 },
  refl,
  refl,
  refl,
  refl,
)

third_is_limited :
    (s : LruRateLimitStore) × (run open_store three_calls ≡ some (s, false ∷ false ∷ true ∷ []))
unfolding program
third_is_limited = (_, refl)

run-quota_example :
    (s : LruRateLimitStore) × (bs : List Bool) × (run open_store three_calls ≡ some (s, bs))
    × HasQuota s alice eth_call 1000 (2 - asked alice eth_call three_calls)
    × (passed alice eth_call three_calls bs + (2 - asked alice eth_call three_calls) ≡ 2)
run-quota_example =
    run-quota three_calls open_store alice eth_call 1000 2 open-HasQuota (omega arith)

-- Two of three calls pass in Redis when the limit is 2.
abbrev call_at : ℕ → Request
call_at time = record { now = time; key = call_key; limit = 2 }

run-limit_example :
    RedisQuota.passed
        (key_text call_key)
        (call_at 5 ∷ call_at 7 ∷ call_at 9 ∷ [])
        (RedisQuota.run counters 1000 (λ k. (0, none)) (call_at 5 ∷ call_at 7 ∷ call_at 9 ∷ []))
      + (2 - RedisQuota.asked (key_text call_key) (call_at 5 ∷ call_at 7 ∷ call_at 9 ∷ []))
    ≡ 2
unfolding duration_seconds
run-limit_example =
    RedisQuota.run-limit counters 1000 (call_at 5) (call_at 7 ∷ call_at 9 ∷ []) (λ k. (0, none)) 2
      refl refl (omega arith, omega arith, (λ e. refl), (omega arith, omega arith, (λ e. refl), tt))
