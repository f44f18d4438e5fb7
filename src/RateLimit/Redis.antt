-- ===== src/RateLimit/Redis.antt =====
-- packages/relay/src/lib/services/rateLimiterService/RedisRateLimitStore.ts: the script that Redis
-- runs is one step. The commands INCR and EXPIRE are a parameter. Times are milliseconds.
use mpcq_json_rpc_relay.Prelude.{
  ℕ, ◌+◌, ◌*◌, ◌/◌, ◌≤◌, ◌<◌, ◌≡◌, Bool, false, ◌∷◌, ◌++◌, Text, codes, text_eq, if◌then◌else◌,
  ◌==◌, ltb,
}
use mpcq_json_rpc_relay.RateLimit.{RateLimitKey}

-- What Redis documents of counters: `count` is that of a key at a time, 0 when there is no key. INCR
-- keeps the time that a key lives; EXPIRE sets it.
pub record RedisCounters : Type 1 where
  pub Db : Type 0
  pub incr : ℕ → Db → Text → Db × ℕ
  pub expire : ℕ → Db → Text → ℕ → Db
  pub count : ℕ → Db → Text → ℕ
  pub incr-result : (now : ℕ) (d : Db) (k : Text) → (incr now d k).1 ≡ count now d k + 1
  pub incr-now : (now : ℕ) (d : Db) (k : Text) → count now (incr now d k).0 k ≡ count now d k + 1
  pub incr-later :
      (now later : ℕ) (d : Db) (k : Text)
      → now ≤ later
      → 0 < count now d k
      → 0 < count later d k
      → count later (incr now d k).0 k ≡ count later d k + 1
  pub incr-other :
      (now later : ℕ) (d : Db) (k j : Text)
      → text_eq k j ≡ false
      → count later (incr now d k).0 j ≡ count later d j
  pub expire-later :
      (now later : ℕ) (d : Db) (k : Text) (seconds : ℕ)
      → now ≤ later
      → later < now + seconds * 1000
      → count later (expire now d k seconds) k ≡ count now d k
  pub expire-other :
      (now later : ℕ) (d : Db) (k j : Text) (seconds : ℕ)
      → text_eq k j ≡ false
      → count later (expire now d k seconds) j ≡ count later d j

-- `toString` of a key.
unfoldable pub key_text : RateLimitKey → Text
key_text key = codes "ratelimit:" ++ (key.ip ++ b':' ∷ key.method)

-- `Math.ceil(this.duration / 1000)`.
unfoldable pub duration_seconds : ℕ → ℕ
duration_seconds duration = (duration + 999) / 1000

module _ (R : RedisCounters) (duration : ℕ) where
  open R use {Db, incr, expire, count}

  unfoldable pub lua_script : ℕ → Db → Text → ℕ → ℕ → Db × ℕ
  lua_script now d key limit seconds =
      let incremented = incr now d key in
      (
        if incremented.1 == 1 then expire now incremented.0 key seconds else incremented.0,
        if ltb limit incremented.1 then 1 else 0,
      )

  -- A request that Redis does not answer passes.
  unfoldable pub increment_and_check : Bool → ℕ → Db → RateLimitKey → ℕ → Db × Bool
  unfolding lua_script key_text duration_seconds
  increment_and_check reachable now d key limit =
      if reachable
      then (let r = lua_script now d (key_text key) limit (duration_seconds duration) in
          (r.0, r.1 == 1))
      else (d, false)
