-- ===== src/RateLimit/Service.antt =====
-- packages/relay/src/lib/services/rateLimiterService/rateLimiterService.ts, over any store.
use mpcq_json_rpc_relay.Prelude.{
  ℕ, ◌+◌, ◌≡◌, Bool, false, Option, some, List, [], ◌∷◌, Text, if◌then◌else◌, ◌>>=◌, >>=-eq-some,
  arith, count_if,
}
use mpcq_json_rpc_relay.RateLimit
use mpcq_json_rpc_relay.RateLimit.{RateLimitKey, LruRateLimitStore}

-- The interface RateLimitStore of types/rateLimiter.ts, over the states of a store.
pub record RateLimitStore (S : Type 0) : Type 0 where
  pub increment_and_check : ℕ → S → RateLimitKey → ℕ → Option (S × Bool)

pub record IpRateLimiterService (S : Type 0) : Type 0 where
  pub store : S
  pub ip_rate_limit_counter : ℕ

module _ {S : Type 0} (ops : RateLimitStore S) (rate_limit_disabled : Bool) where
  unfoldable pub should_rate_limit :
      ℕ → IpRateLimiterService S → Text → Text → ℕ → Option (IpRateLimiterService S × Bool)
  should_rate_limit now s ip method_name limit =
      if rate_limit_disabled then some (s, false) else (do
        let key : RateLimitKey = record { ip = ip; method = method_name }
        (store', is_rate_limited) ← ops.increment_and_check now s.store key limit
        some (
          record {
            store = store';
            ip_rate_limit_counter =
                if is_rate_limited then s.ip_rate_limit_counter + 1 else s.ip_rate_limit_counter;
          },
          is_rate_limited,
        ))

  -- A history of requests `(now, ip, method, limit)`.
  unfoldable pub serve :
      IpRateLimiterService S
      → List (ℕ × Text × Text × ℕ)
      → Option (IpRateLimiterService S × List Bool)
  serve s [] = some (s, [])
  serve s ((now, ip, method, limit) ∷ rs) = do
    (s', limited) ← should_rate_limit now s ip method limit
    (s'', rest) ← serve s' rs
    some (s'', limited ∷ rest)

  should_rate_limit-counter :
      (now : ℕ) (s s' : IpRateLimiterService S) (ip method : Text) (limit : ℕ) (b : Bool)
      → should_rate_limit now s ip method limit ≡ some (s', b)
      → s'.ip_rate_limit_counter ≡ s.ip_rate_limit_counter + (if b then 1 else 0)
  unfolding should_rate_limit
  should_rate_limit-counter now s s' ip method limit b h = ground arith

  -- The metric counts exactly the requests that were refused.
  pub serve-counter :
      (rs : List (ℕ × Text × Text × ℕ)) (s s' : IpRateLimiterService S) (bs : List Bool)
      → serve s rs ≡ some (s', bs)
      → s'.ip_rate_limit_counter ≡ s.ip_rate_limit_counter + count_if (λ b. b) bs
  unfolding serve
  serve-counter [] s s' bs h = ground arith
  serve-counter ((now, ip, method, limit) ∷ rs) s s' bs h =
      let (r₁, e₁, h₁) = >>=-eq-some (should_rate_limit now s ip method limit) _ h in
      let (r₂, e₂, h₂) = >>=-eq-some (serve r₁.0 rs) _ h₁ in
      ground (
        arith,
        should_rate_limit-counter now s r₁.0 ip method limit r₁.1 e₁,
        serve-counter rs r₁.0 r₂.0 r₂.1 e₂,
      )

-- The service over the local store.
unfoldable pub lru_store : RateLimitStore LruRateLimitStore
lru_store = record { increment_and_check = RateLimit.increment_and_check }
