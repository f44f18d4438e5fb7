-- ===== src/RateLimit/RedisQuota.antt =====
-- The quota of a window with the counters in Redis.
use mpcq_json_rpc_relay.Prelude.{
  ℕ, ◌+◌, ◌-◌, ◌*◌, ◌≤◌, ◌<◌, ◌≡◌, refl, Bool, true, false, List, [], ◌∷◌, Text, text_eq,
  text_eq_iff, text_eq_refl, if◌then◌else◌, ◌==◌, ltb, not, arith, Bool-cases, inl, inr, ap, ◌∙◌,
  sym, ◌&&◌,
}
use mpcq_json_rpc_relay.RateLimit.Quota.{Request}
use mpcq_json_rpc_relay.RateLimit.Redis.{
  RedisCounters, key_text, duration_seconds, lua_script, increment_and_check,
}

module _ (R : RedisCounters) (duration : ℕ) where
  open R use {Db, incr, expire, count}

  -- The answers to a sequence of requests that Redis answers.
  abbrev pub run : Db → List Request → List Bool
  run d [] = []
  run d (r ∷ rs) =
      let answer = increment_and_check R duration true r.now d r.key r.limit in
      answer.1 ∷ run answer.0 rs

  -- The count of a key from a time to the end of its window.
  abbrev pub HasCount : ℕ → ℕ → Db → Text → ℕ → Type 0
  HasCount now end d k c = (0 < c) × ((later : ℕ) → now ≤ later → later < end → count later d k ≡ c)

  -- What is asked in a window: with one limit, at times that do not go back.
  abbrev pub InWindow : ℕ → ℕ → ℕ → Text → List Request → Type 0
  InWindow limit now end k [] = Unit
  InWindow limit now end k (r ∷ rs) =
      (now ≤ r.now)
      × (r.now < end)
      × (text_eq (key_text r.key) k ≡ true → r.limit ≡ limit)
      × InWindow limit r.now end k rs

-- The requests for a key, and those among them that passed.
abbrev pub asked : Text → List Request → ℕ
asked k [] = 0
asked k (r ∷ rs) = (if text_eq (key_text r.key) k then 1 else 0) + asked k rs

abbrev pub passed : Text → List Request → List Bool → ℕ
passed k [] bs = 0
passed k (r ∷ rs) [] = 0
passed k (r ∷ rs) (b ∷ bs) = (if text_eq (key_text r.key) k && not b then 1 else 0) + passed k rs bs

from_zero : (a b limit : ℕ) → a + ((limit - 0) - b) ≡ limit - 0 → a + (limit - b) ≡ limit
from_zero a b limit h = omega (arith, h)

from_one :
    (a b limit : ℕ)
    → a + ((limit - 1) - b) ≡ limit - 1
    → a + ((limit - (0 + 1)) - b) ≡ limit - (0 + 1)
from_one a b limit h = omega (arith, h)

-- One request, of the key or not, limited or not, before the others.
counted_lem :
    (mine limited : Bool) (p a limit c : ℕ)
    → p + ((limit - (c + (if mine then 1 else 0))) - a) ≡ limit - (c + (if mine then 1 else 0))
    → (mine ≡ true → limited ≡ ltb limit (c + 1))
    → (if mine && not limited then 1 else 0) + p + ((limit - c) - ((if mine then 1 else 0) + a))
      ≡ limit - c
counted_lem true limited p a limit c rest h = ground (arith, rest, h refl)
counted_lem false limited p a limit c rest h = ground (arith, rest)

module _ (R : RedisCounters) (duration : ℕ) where
  open R use {Db, incr, expire, count}

  script-same :
      (now later : ℕ) (d : Db) (x : Text) (limit seconds : ℕ)
      → now ≤ later
      → 0 < count now d x
      → 0 < count later d x
      → count later (lua_script R duration now d x limit seconds).0 x ≡ count later d x + 1
  unfolding lua_script
  script-same now later d x limit seconds after alive still =
      let many : ((incr now d x).1 == 1) ≡ false = ground (arith, R.incr-result now d x, alive) in
      ap
        (λ b. count later (if b then expire now (incr now d x).0 x seconds else (incr now d x).0) x)
        many
      ∙ R.incr-later now later d x after alive still

  script-other :
      (now later : ℕ) (d : Db) (x k : Text) (limit seconds : ℕ)
      → text_eq x k ≡ false
      → count later (lua_script R duration now d x limit seconds).0 k ≡ count later d k
  unfolding lua_script
  script-other now later d x k limit seconds other = elim (Bool-cases ((incr now d x).1 == 1)) [
    | inl e ↦
        ap
          (λ b.
            count later (if b then expire now (incr now d x).0 x seconds else (incr now d x).0) k)
          e
        ∙ R.expire-other now later (incr now d x).0 x k seconds other
        ∙ R.incr-other now later d x k other
    | inr e ↦
        ap
          (λ b.
            count later (if b then expire now (incr now d x).0 x seconds else (incr now d x).0) k)
          e
        ∙ R.incr-other now later d x k other
  ]

  script-answer :
      (now : ℕ) (d : Db) (x : Text) (limit seconds : ℕ)
      → ((lua_script R duration now d x limit seconds).1 == 1) ≡ ltb limit (count now d x + 1)
  unfolding lua_script
  script-answer now d x limit seconds = ground (arith, R.incr-result now d x)

  -- A script for the key, or for another, in the window of the key.
  step-HasCount :
      (now at end : ℕ) (d : Db) (x k : Text) (limit seconds c : ℕ)
      → HasCount R duration now end d k c
      → now ≤ at
      → at < end
      → HasCount R duration at end
          (lua_script R duration at d x limit seconds).0
          k
          (c + (if text_eq x k then 1 else 0))
  step-HasCount now at end d x k limit seconds c (positive, kept) after before =
      elim (Bool-cases (text_eq x k)) [
        | inl same ↦
            let is_k = (text_eq_iff x k).0 same in
            rw same (
              omega arith,
              (λ later on off.
                  let at_first : count at d x ≡ c =
                    ap (λ y. count at d y) is_k ∙ kept at after before in
                  let at_last : count later d x ≡ c =
                    ap (λ y. count later d y) is_k ∙ kept later (omega (arith, after, on)) off in
                  ap (λ y. count later (lua_script R duration at d x limit seconds).0 y) (sym is_k)
                  ∙ script-same at later d x limit seconds on (ground (arith, at_first, positive))
                      (ground (arith, at_last, positive))
                  ∙ ap (λ n. n + 1) at_last),
            )
        | inr other ↦ rw other (
          omega (arith, positive),
          (λ later on off.
              script-other at later d x k limit seconds other
              ∙ kept later (omega (arith, after, on)) off
              ∙ omega arith),
        )
      ]

  -- In the window of a key that was counted, whatever else is asked: exactly as many requests of the
  -- key pass as the limit has left.
  pub run-HasCount :
      (rs : List Request) (d : Db) (k : Text) (limit now end c : ℕ)
      → HasCount R duration now end d k c
      → InWindow R duration limit now end k rs
      → passed k rs (run R duration d rs) + ((limit - c) - asked k rs) ≡ limit - c
  unfolding increment_and_check
  run-HasCount [] d k limit now end c counted window = omega arith
  run-HasCount (r ∷ rs) d k limit now end c (positive, kept) (after, before, same_limit, window) =
      let x = key_text r.key in
      let seconds = duration_seconds duration in
      let rest =
        run-HasCount rs (lua_script R duration r.now d x r.limit seconds).0 k limit r.now end
          (c + (if text_eq x k then 1 else 0))
          (step-HasCount now r.now end d x k r.limit seconds c (positive, kept) after before)
          window in
      counted_lem (text_eq x k) ((lua_script R duration r.now d x r.limit seconds).1 == 1)
        (passed k rs (run R duration (lua_script R duration r.now d x r.limit seconds).0 rs))
        (asked k rs) limit c rest
        (λ same.
          script-answer r.now d x r.limit seconds
          ∙ ap (λ n. ltb n (count r.now d x + 1)) (same_limit same)
          ∙ ap (λ n. ltb limit (n + 1))
              (ap (λ y. count r.now d y) ((text_eq_iff x k).0 same) ∙ kept r.now after before))

  -- The first request of a key opens a window.
  script-first :
      (now : ℕ) (d : Db) (x : Text) (limit seconds : ℕ)
      → count now d x ≡ 0
      → HasCount R duration now
          (now + seconds * 1000)
          (lua_script R duration now d x limit seconds).0
          x
          1
  unfolding lua_script
  script-first now d x limit seconds none_yet = (
    omega arith,
    (λ later after before.
        let one : ((incr now d x).1 == 1) ≡ true =
          ground (arith, R.incr-result now d x, none_yet) in
        ap
          (λ b.
            count later (if b then expire now (incr now d x).0 x seconds else (incr now d x).0) x)
          one
        ∙ R.expire-later now later (incr now d x).0 x seconds after before
        ∙ R.incr-now now d x
        ∙ ap (λ n. n + 1) none_yet),
  )

  -- From the first request of a key to the end of its window, whatever else is asked: exactly as many
  -- requests of the key pass as the limit allows, none when the limit is 0.
  pub run-limit :
      (r : Request) (rs : List Request) (d : Db) (limit : ℕ)
      → count r.now d (key_text r.key) ≡ 0
      → r.limit ≡ limit
      → InWindow R duration limit r.now
          (r.now + duration_seconds duration * 1000)
          (key_text r.key)
          rs
      → passed (key_text r.key) (r ∷ rs) (run R duration d (r ∷ rs))
          + (limit - asked (key_text r.key) (r ∷ rs))
        ≡ limit
  unfolding increment_and_check
  run-limit r rs d limit none_yet same_limit window =
      let x = key_text r.key in
      let seconds = duration_seconds duration in
      let first =
        run-HasCount rs (lua_script R duration r.now d x r.limit seconds).0 x limit r.now
          (r.now + seconds * 1000) 1 (script-first r.now d x r.limit seconds none_yet) window in
      from_zero _ _ limit (
        counted_lem (text_eq x x) ((lua_script R duration r.now d x r.limit seconds).1 == 1)
          (passed x rs (run R duration (lua_script R duration r.now d x r.limit seconds).0 rs))
          (asked x rs) limit 0 (rw (text_eq_refl x) (from_one _ _ limit first))
          (λ same.
            script-answer r.now d x r.limit seconds
            ∙ ap (λ n. ltb n (count r.now d x + 1)) same_limit
            ∙ ap (λ n. ltb limit (n + 1)) none_yet))
