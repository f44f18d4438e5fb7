-- ===== src/TxPool/Expiry.antt =====
-- When the keys of the pool in Redis expire: every save moves the end of the two keys that it writes.
use mpcq_json_rpc_relay.Prelude.{
  ℕ, ◌+◌, ◌≤◌, ◌<◌, ◌≡◌, ◌⊎◌, ap, ◌∙◌, true, Option, none, some, ◌∷◌, Text, text_eq, text_eq_refl,
  if◌then◌else◌, arith, Bool-cases, inl, inr,
}
use mpcq_json_rpc_relay.Prelude.Sets.{has}
use mpcq_json_rpc_relay.TxPool.Redis
use mpcq_json_rpc_relay.TxPool.Redis.{
  RedisSets, is_alive, key_prefix, key_for, global_pending_txs_key,
}
use mpcq_json_rpc_relay.TxPool.Refinement.{
  Op, save, drop, drop_all, Pending, redis_step, RedisRepresents, keys-cases,
}

-- The key does not expire before a time.
abbrev pub LivesUntil : ℕ → Option ℕ → Type 0
LivesUntil stop none = Unit
LivesUntil stop (some t) = stop ≤ t

is_alive-LivesUntil :
    (now stop : ℕ) (o : Option ℕ) → now < stop → LivesUntil stop o → is_alive now o ≡ true
is_alive-LivesUntil now stop none h late = ground arith
is_alive-LivesUntil now stop (some t) h late = ground (arith, h, late)

same_or_none :
    (stop : ℕ) (a b : Option ℕ) → (a ≡ b) ⊎ (a ≡ none) → LivesUntil stop b → LivesUntil stop a
same_or_none stop a b (inl e) late = rw e late
same_or_none stop a b (inr e) late = rw e tt

module _ (R : RedisSets) (ttl : ℕ) (positive : 0 < ttl) where
  open R use {Db, s_members, until}

  -- No key expires before a time.
  abbrev pub AllLive : ℕ → Db → Type 0
  AllLive stop d = (j : Text) → LivesUntil stop (until d j)

  s_add-AllLive :
      (now stop : ℕ) (d : Db) (k x : Text) → AllLive stop d → AllLive stop (R.s_add now d k x)
  s_add-AllLive now stop d k x late j =
      same_or_none stop _ (until d j) (R.until-s_add now d k x j) (late j)

  s_rem-AllLive :
      (now stop : ℕ) (d : Db) (k x : Text) → AllLive stop d → AllLive stop (R.s_rem now d k x)
  s_rem-AllLive now stop d k x late j =
      same_or_none stop _ (until d j) (R.until-s_rem now d k x j) (late j)

  -- SADD and EXPIRE of one key.
  added-AllLive :
      (now stop : ℕ) (d : Db) (k x : Text)
      → stop ≤ now + ttl
      → AllLive stop d
      → AllLive stop (R.expire now (R.s_add now d k x) k ttl)
  added-AllLive now stop d k x h late j =
      let d' = R.s_add now d k x in
      let there : has x (s_members now d' k) ≡ true =
        R.has-s_add now d k x k x ∙ ground (arith, text_eq_refl k, text_eq_refl x) in
      elim (Bool-cases (text_eq k j)) [
        | inl e ↦
            rw
              (R.until-expire now d' k j x ttl there
                ∙ ap (λ b. if b then some (now + ttl) else until d' j) e)
              h
        | inr e ↦
            rw
              (R.until-expire now d' k j x ttl there
                ∙ ap (λ b. if b then some (now + ttl) else until d' j) e)
              (s_add-AllLive now stop d k x late j)
      ]

  pub redis_step-AllLive :
      (now stop : ℕ) (d : Db) (op : Op)
      → stop ≤ now + ttl
      → AllLive stop d
      → AllLive stop (redis_step R ttl positive now d op)
  unfolding Redis.add_to_list Redis.remove_from_list Redis.remove_all
  redis_step-AllLive now stop d (save a r) h late =
      added-AllLive now stop _ global_pending_txs_key r h
        (added-AllLive now stop d (key_for a) r h late)
  redis_step-AllLive now stop d (drop a r) h late =
      s_rem-AllLive now stop _ global_pending_txs_key r
        (s_rem-AllLive now stop d (key_for a) r late)
  redis_step-AllLive now stop d drop_all h late = λ j. elim (keys-cases (R.keys now d key_prefix)) [
    | inl e ↦ rw (Redis.remove_all, e) (late j)
    | inr (k, more, e) ↦
        rw (Redis.remove_all, e)
          (same_or_none stop _ (until d j) (R.until-unlink now d (k ∷ more) j) (late j))
  ]

  same :
      (now later stop : ℕ) (d : Db)
      → now ≤ later
      → later < stop
      → AllLive stop d
      → (k : Text) → s_members later d k ≡ s_members now d k
  same now later stop d h soon late k =
      R.s_members-later now later d k h (is_alive-LivesUntil later stop (until d k) soon (late k))

  -- What the sets stand for stays while no key expires.
  pub later-RedisRepresents :
      (now later stop : ℕ) (d : Db) (p : Pending)
      → now ≤ later
      → later < stop
      → AllLive stop d
      → RedisRepresents R ttl positive now d p
      → RedisRepresents R ttl positive later d p
  unfolding Redis.get_transaction_payloads Redis.get_all_transaction_payloads
  later-RedisRepresents now later stop d p h soon late rep = record {
    lists = λ a r i. ap (has r) (same now later stop d h soon late (key_for a)) ∙ rep.lists a r i;
    index =
        λ r. ap (has r) (same now later stop d h soon late global_pending_txs_key) ∙ rep.index r;
  }
