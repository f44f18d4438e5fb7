-- ===== src/RateLimit/Quota.antt =====
-- The promise of the fixed window over any interleaving of calls: the requests that pass, and what
-- is left of the quota.
use mpcq_json_rpc_relay.Prelude.{
  ℕ, ◌+◌, ◌-◌, ◌≤◌, ◌<◌, ◌≡◌, ◌∙◌, refl, Bool, true, false, Option, none, some, List, [], ◌∷◌, Text,
  lookup, insert, if◌then◌else◌, ◌>>=◌, arith, lookup-insert, text_eq_iff, text_eq, text_eq_refl,
  lookup-insert_self, subst, ◌==◌, Bool-cases, inl, inr, ◌&&◌, not, All,
}
use mpcq_json_rpc_relay.RateLimit.{
  MethodDatabase, DatabaseEntry, LruRateLimitStore, RateLimitKey, refill, increment_and_check,
}
use mpcq_json_rpc_relay.RateLimit.Window.{
  entry_or_new, info_or_new, next_entry, increment_and_check-next_entry,
}

-- A call of `increment_and_check` with the time at which it is made.
pub record Request : Type 0 where
  pub now : ℕ
  pub key : RateLimitKey
  pub limit : ℕ

-- The answers to a sequence of requests.
unfoldable pub run : LruRateLimitStore → List Request → Option (LruRateLimitStore × List Bool)
run s [] = some (s, [])
run s (r ∷ rs) = do
  (s', limited) ← increment_and_check r.now s r.key r.limit
  (s'', rest) ← run s' rs
  some (s'', limited ∷ rest)

abbrev pub is_for : Text → Text → Request → Bool
is_for ip m r = text_eq r.key.ip ip && text_eq r.key.method m

-- The requests for a method of an address.
unfoldable pub asked : Text → Text → List Request → ℕ
asked ip m [] = 0
asked ip m (r ∷ rs) = (if is_for ip m r then 1 else 0) + asked ip m rs

-- Those among them that were not limited.
unfoldable pub passed : Text → Text → List Request → List Bool → ℕ
passed ip m [] bs = 0
passed ip m (r ∷ rs) [] = 0
passed ip m (r ∷ rs) (b ∷ bs) = (if is_for ip m r && not b then 1 else 0) + passed ip m rs bs

-- The address has a window that ends at `reset` and `left` requests of the method to go.
abbrev pub HasQuota : LruRateLimitStore → Text → Text → ℕ → ℕ → Type 0
HasQuota s ip m reset left =
    (e : DatabaseEntry) × (i : MethodDatabase) × (lookup ip s.database ≡ some e)
    × (e.reset ≡ reset)
    × (lookup m e.method_info ≡ some i)
    × (i.remaining ≡ left)

next_entry-quota :
    (now d limit : ℕ) (e : DatabaseEntry) (i : MethodDatabase) (k m : Text)
    → now ≤ e.reset
    → lookup m e.method_info ≡ some i
    → let r = next_entry now d e k limit in
      let one : ℕ = if text_eq k m then 1 else 0 in
      (r.0.reset ≡ e.reset)
      × (lookup m r.0.method_info ≡ some (record i { remaining = i.remaining - one }))
      × ((if text_eq k m && not r.1 then 1 else 0) + (i.remaining - one) ≡ i.remaining)
unfolding next_entry
next_entry-quota now d limit e i k m h hi =
    let j = info_or_new k limit (lookup k e.method_info) in
    ground (
      arith,
      text_eq_iff k m,
      lookup-insert k m j e.method_info,
      lookup-insert k m (record j { remaining = j.remaining - 1 }) (insert k j e.method_info),
    )

step-quota :
    (s : LruRateLimitStore) (r : Request) (ip m : Text) (reset left : ℕ)
    → HasQuota s ip m reset left
    → (text_eq r.key.ip ip ≡ true → r.now ≤ reset)
    → (s' : LruRateLimitStore) × (b : Bool) × (increment_and_check r.now s r.key r.limit
        ≡ some (s', b))
      × HasQuota s' ip m reset (left - (if is_for ip m r then 1 else 0))
      × ((if is_for ip m r && not b then 1 else 0) + (left - (if is_for ip m r then 1 else 0))
          ≡ left)
step-quota s r ip m reset left (e, i, he, hr, hi, hl) h =
    let e₀ = entry_or_new r.now s.duration (lookup r.key.ip s.database) in
    let n = next_entry r.now s.duration e₀ r.key.method r.limit in
    let s' = record s { database = insert r.key.ip n.0 s.database } in
    elim (Bool-cases (text_eq r.key.ip ip)) [
      | inl same ↦
          let key_eq = (text_eq_iff r.key.ip ip).0 same in
          let e₀-eq : e₀ ≡ e = rw (key_eq, he) in
          let q = next_entry-quota r.now s.duration r.limit e i r.key.method m (ground arith) hi in
          (
            s',
            n.1,
            increment_and_check-next_entry r.now s r.key r.limit,
            (
              n.0,
              record i { remaining = i.remaining - (if text_eq r.key.method m then 1 else 0) },
              rw (lookup-insert, same),
              rw (e₀-eq) (q.0 ∙ hr),
              rw (e₀-eq) q.1,
              rw (same, hl),
            ),
            rw (same, ← hl, e₀-eq) q.2,
          )
      | inr other ↦ (
        s',
        n.1,
        increment_and_check-next_entry r.now s r.key r.limit,
        (e, i, rw (lookup-insert, other) he, hr, hi, rw other (omega arith)),
        rw other (omega arith),
      )
    ]

-- Requests on the address are made before its window ends.
abbrev pub InWindow : Text → ℕ → List Request → Type 0
InWindow ip reset = All (λ r. text_eq r.key.ip ip ≡ true → r.now ≤ reset)

-- While a window lasts, whatever else is asked: no call throws, exactly as many requests of the
-- method pass as the quota has left, and one is refused only when nothing is left.
pub run-quota :
    (rs : List Request) (s : LruRateLimitStore) (ip m : Text) (reset left : ℕ)
    → HasQuota s ip m reset left
    → InWindow ip reset rs
    → (s' : LruRateLimitStore) × (bs : List Bool) × (run s rs ≡ some (s', bs))
      × HasQuota s' ip m reset (left - asked ip m rs)
      × (passed ip m rs bs + (left - asked ip m rs) ≡ left)
unfolding run asked passed
run-quota [] s ip m reset left q w =
    let same : left ≡ left - 0 = omega arith in
    (s, [], refl, subst (HasQuota s ip m reset) same q, omega arith)
run-quota (r ∷ rs) s ip m reset left q w =
    let (s₁, b, e₁, q₁, c₁) = step-quota s r ip m reset left q w.0 in
    let one : ℕ = if is_for ip m r then 1 else 0 in
    let (s₂, bs, e₂, q₂, c₂) = run-quota rs s₁ ip m reset (left - one) q₁ w.1 in
    let less : left - one - asked ip m rs ≡ left - (one + asked ip m rs) = omega arith in
    (s₂, b ∷ bs, rw (e₁, e₂), subst (HasQuota s₂ ip m reset) less q₂, omega (arith, c₁, c₂))

-- A request after the window's end opens a new one: it passes whatever the limit is, and leaves
-- one less than its own limit until `duration` later.
pub expired-quota :
    (now : ℕ) (s : LruRateLimitStore) (key : RateLimitKey) (limit : ℕ) (e : DatabaseEntry)
    → lookup key.ip s.database ≡ some e
    → e.reset < now
    → (s' : LruRateLimitStore) × (increment_and_check now s key limit ≡ some (s', false))
      × HasQuota s' key.ip key.method (now + s.duration) (limit - 1)
unfolding next_entry
expired-quota now s key limit e he h =
    let i = info_or_new key.method limit (lookup key.method e.method_info) in
    let i' = record i { remaining = limit - 1; total = limit } in
    let known = insert key.method i e.method_info in
    let n : DatabaseEntry = record {
      reset = now + s.duration;
      method_info = insert key.method i' (refill known);
    } in
    (
      record s { database = insert key.ip n s.database },
      ground (arith, increment_and_check-next_entry now s key limit),
      (
        n,
        i',
        lookup-insert_self key.ip n s.database,
        refl,
        lookup-insert_self key.method i' (refill known),
        refl,
      ),
    )

-- The first request of an address opens its window: it passes unless the limit is 0.
pub first-quota :
    (now : ℕ) (s : LruRateLimitStore) (key : RateLimitKey) (limit : ℕ)
    → lookup key.ip s.database ≡ none
    → (s' : LruRateLimitStore) × (increment_and_check now s key limit ≡ some (s', limit == 0))
      × HasQuota s' key.ip key.method (now + s.duration) (limit - 1)
unfolding next_entry lookup insert
first-quota now s key limit he =
    let i : MethodDatabase = record {
      method_name = key.method;
      remaining = limit - 1;
      total = limit;
    } in
    let n : DatabaseEntry = record {
      reset = now + s.duration;
      method_info = (key.method, i) ∷ [];
    } in
    (
      record s { database = insert key.ip n s.database },
      ground (arith, increment_and_check-next_entry now s key limit, text_eq_refl key.method),
      (n, i, lookup-insert_self key.ip n s.database, refl, rw (lookup, text_eq_refl), refl),
    )
