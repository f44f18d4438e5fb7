-- ===== src/TxPool/Agreement.antt =====
-- The pool in Redis answers as the pool in memory does, while no key in Redis expires.
use mpcq_json_rpc_relay.Prelude.{
  ℕ, ◌+◌, ◌≤◌, ◌<◌, ◌≡◌, sym, ◌∙◌, List, [], ◌∷◌, Text, text_eq, length, arith, All, Bool-cases,
  Option-cases, inl, inr, lookup,
}
use mpcq_json_rpc_relay.Prelude.Sets.{has, Distinct, Distinct-add, Distinct-delete}
use mpcq_json_rpc_relay.TxPool
use mpcq_json_rpc_relay.TxPool.{LocalPendingTransactionStorage}
use mpcq_json_rpc_relay.TxPool.Index.{payloads-add_to_list, payloads-remove_from_list}
use mpcq_json_rpc_relay.TxPool.Redis
use mpcq_json_rpc_relay.TxPool.Redis.{RedisSets, key_for}
use mpcq_json_rpc_relay.TxPool.Expiry.{AllLive, redis_step-AllLive, later-RedisRepresents}
use mpcq_json_rpc_relay.TxPool.Refinement.{
  Pending, Op, save, drop, drop_all, apply, local_step, Represents, local_step-Represents,
  IsAddress, HasAddress, redis_step, RedisRepresents, redis_step-RedisRepresents, same_size,
}

-- The payloads of an address stand once each.
abbrev pub IsOnce : LocalPendingTransactionStorage → Type 0
IsOnce s = (a : Text) → Distinct (TxPool.get_transaction_payloads s a)

local_step-IsOnce :
    (s : LocalPendingTransactionStorage) (op : Op) → IsOnce s → IsOnce (local_step s op)
unfolding TxPool.remove_all TxPool.get_transaction_payloads lookup
local_step-IsOnce s (save a r) once b = elim (Bool-cases (text_eq a b)) [
  | inl e ↦ rw (payloads-add_to_list s a r b, e) (Distinct-add r _ (once a))
  | inr e ↦ rw (payloads-add_to_list s a r b, e) (once b)
]
local_step-IsOnce s (drop a r) once b = elim (Bool-cases (text_eq a b)) [
  | inl e ↦ rw (payloads-remove_from_list s a r b, e) (Distinct-delete r _ (once a))
  | inr e ↦ rw (payloads-remove_from_list s a r b, e) (once b)
]
local_step-IsOnce s drop_all once b = tt

-- Calls with the times at which they are made.
abbrev pub run_local :
    LocalPendingTransactionStorage → List (ℕ × Op) → LocalPendingTransactionStorage
run_local s [] = s
run_local s ((now, op) ∷ calls) = run_local (local_step s op) calls

-- The calls come one after the other, the answers are asked for after them, and all of it before a
-- time.
abbrev pub AreBefore : ℕ → ℕ → ℕ → List (ℕ × Op) → Type 0
AreBefore stop asked last [] = (last ≤ asked) × (asked < stop)
AreBefore stop asked last ((now, op) ∷ calls) =
    (last ≤ now) × (now < stop) × AreBefore stop asked now calls

get_list-length :
    (s : LocalPendingTransactionStorage) (a : Text)
    → TxPool.get_list s a ≡ length (TxPool.get_transaction_payloads s a)
unfolding TxPool.get_list TxPool.get_transaction_payloads
get_list-length s a = elim (Option-cases (lookup a s.pending_transactions)) [
  | inl e ↦ ground (arith, e)
  | inr (txs, e) ↦ ground (arith, e)
]

module _ (R : RedisSets) (ttl : ℕ) (positive : 0 < ttl) where
  abbrev pub run_redis : R.Db → List (ℕ × Op) → R.Db
  run_redis d [] = d
  run_redis d ((now, op) ∷ calls) = run_redis (redis_step R ttl positive now d op) calls

  -- The same payloads of every address and at all, and the same number of them.
  pub record SameAnswers (now : ℕ) (s : LocalPendingTransactionStorage) (d : R.Db) : Type 0 where
    pub payloads :
        (a r : Text)
        → IsAddress a
        → has r (TxPool.get_transaction_payloads s a)
          ≡ has r (Redis.get_transaction_payloads R ttl now d a)
    pub all_payloads :
        (r : Text)
        → has r (TxPool.get_all_transaction_payloads s)
          ≡ has r (Redis.get_all_transaction_payloads R ttl now d)
    pub counts : (a : Text) → IsAddress a → TxPool.get_list s a ≡ Redis.get_list R ttl now d a

  payloads-Distinct :
      (now : ℕ) (d : R.Db) (a : Text) → Distinct (Redis.get_transaction_payloads R ttl now d a)
  unfolding Redis.get_transaction_payloads
  payloads-Distinct now d a = R.s_members-Distinct now d (key_for a)

  redis_get_list-length :
      (now : ℕ) (d : R.Db) (a : Text)
      → Redis.get_list R ttl now d a ≡ length (Redis.get_transaction_payloads R ttl now d a)
  unfolding Redis.get_list Redis.get_transaction_payloads
  redis_get_list-length now d a = R.s_card-s_members now d (key_for a)

  same_answers :
      (now : ℕ) (s : LocalPendingTransactionStorage) (d : R.Db) (p : Pending)
      → Represents s p
      → RedisRepresents R ttl positive now d p
      → IsOnce s
      → SameAnswers now s d
  unfolding TxPool.get_all_transaction_payloads
  same_answers now s d p hs hd once = record {
    payloads = λ a r i. hs.lists a r ∙ sym (hd.lists a r i);
    all_payloads = λ r. hs.index r ∙ sym (hd.index r);
    counts = λ a i.
        get_list-length s a
        ∙ same_size (TxPool.get_transaction_payloads s a)
            (Redis.get_transaction_payloads R ttl now d a) (once a) (payloads-Distinct now d a)
            (λ r. hs.lists a r ∙ sym (hd.lists a r i))
        ∙ sym (redis_get_list-length now d a);
  }

  -- Both storages stand for the same abstract pool at a time, the memory has no payload of an address
  -- twice, and no key in Redis expires before a second time, which is at most the time to live after
  -- the first. When calls are made on both between the two times, one after the other, both stand for
  -- the same abstract pool after them: asked before the second time, they answer with the same
  -- payloads, of every address and at all, and with the same numbers. No address may be the text
  -- `global`, whose key Redis has for the payloads of all addresses. The time to live is not 0.
  pub run-SameAnswers :
      (calls : List (ℕ × Op)) (last stop asked : ℕ) (s : LocalPendingTransactionStorage) (d : R.Db)
      (p : Pending)
      → Represents s p
      → RedisRepresents R ttl positive last d p
      → IsOnce s
      → All (λ (c : ℕ × Op). HasAddress c.1) calls
      → AllLive R ttl positive stop d
      → stop ≤ last + ttl
      → AreBefore stop asked last calls
      → SameAnswers asked (run_local s calls) (run_redis d calls)
  run-SameAnswers [] last stop asked s d p hs hd once is late end (after, soon) =
      same_answers asked s d p hs
        (later-RedisRepresents R ttl positive last asked stop d p after soon late hd) once
  run-SameAnswers ((now, op) ∷ calls) last stop asked s d p hs hd once is late end
        (after, soon, rest) =
      let now_end : stop ≤ now + ttl = omega (arith, end, after) in
      run-SameAnswers calls now stop asked (local_step s op) (redis_step R ttl positive now d op)
        (apply p op) (local_step-Represents s p op hs)
        (redis_step-RedisRepresents R ttl positive now d p op is.0
          (later-RedisRepresents R ttl positive last now stop d p after soon late hd))
        (local_step-IsOnce s op once) is.1
        (redis_step-AllLive R ttl positive now stop d op now_end late) now_end rest
