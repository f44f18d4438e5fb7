-- ===== src/TxPool/Examples.antt =====
-- Two senders in one pool, and the theorems at them.
use mpcq_json_rpc_relay.Prelude.{
  ℕ, ◌≡◌, refl, Bool, true, false, none, some, List, [], ◌∷◌, Text, codes, lookup, insert, remove,
  text_eq, to_lower_case, starts_with, arith, text_eq_iff, ◌&&◌, ◌==◌,
}
use mpcq_json_rpc_relay.Prelude.Strings.{to_lower}
use mpcq_json_rpc_relay.Prelude.Sets.{has, add, push_end, delete}
use mpcq_json_rpc_relay.TxPool.{
  LocalPendingTransactionStorage, init, get_list, add_to_list, remove_from_list,
  get_transaction_payloads, get_all_transaction_payloads, save_transaction, remove_transaction,
  get_pending_count, get_transactions, get_all_transactions, remove_all,
}
use mpcq_json_rpc_relay.TxPool.Index.{
  IsIndexed, init-IsIndexed, add_to_list-IsIndexed, remove_from_list-IsIndexed,
}
use mpcq_json_rpc_relay.TxPool.Redis
use mpcq_json_rpc_relay.TxPool.Refinement.{
  Pending, Op, save, drop, drop_all, Represents, RedisRepresents,
}
use mpcq_json_rpc_relay.TxPool.Agreement.{
  IsOnce, run_local, run_redis, SameAnswers, run-SameAnswers,
}
use mpcq_json_rpc_relay.TxPool.PairSets.{members, without, without_keys, keys_with}
use mpcq_json_rpc_relay.TxPool.TimedSets.{pair_sets}
use mpcq_json_rpc_relay.Prelude.Results.{ok, err}
use mpcq_json_rpc_relay.TxPool.Api.{Transaction, ByNonce, unsupported_method, content}
use mpcq_json_rpc_relay.TxPool.Grouping.{at_address_and_nonce, last_shown, content_lem}

program : Unit {0}
unfolding lookup insert remove text_eq to_lower_case has add push_end delete init get_list
    add_to_list remove_from_list get_transaction_payloads get_all_transaction_payloads
    save_transaction remove_transaction get_pending_count get_transactions get_all_transactions
    to_lower
program = tt

abbrev alice : Text
alice = codes "0xa"

abbrev bob : Text
bob = codes "0xb"

abbrev payload : Text
payload = codes "0x02"

-- One payload of the first sender is pending.
pending : LocalPendingTransactionStorage
unfolding init add_to_list
pending = add_to_list init alice payload

save_counts :
    get_pending_count (save_transaction true pending (codes "0xA") (codes "0x03")) alice ≡ 2
unfolding program pending
save_counts = refl

init-nobody : (b : Text) → has payload (get_transaction_payloads init b) ≡ true → b ≡ alice
unfolding program
init-nobody b h = ground arith

pending-IsIndexed : IsIndexed pending
unfolding pending
pending-IsIndexed = add_to_list-IsIndexed init alice payload init-IsIndexed init-nobody

add_to_list-IsIndexed_example : IsIndexed (add_to_list init alice payload)
add_to_list-IsIndexed_example = add_to_list-IsIndexed init alice payload init-IsIndexed init-nobody

pending-only : (b : Text) → has payload (get_transaction_payloads pending b) ≡ true → b ≡ alice
unfolding program pending
pending-only b h = ground (arith, text_eq_iff alice b)

remove_from_list-IsIndexed_example : IsIndexed (remove_from_list pending alice payload)
remove_from_list-IsIndexed_example =
    remove_from_list-IsIndexed pending alice payload pending-IsIndexed pending-only

-- Two payloads of one sender under one nonce.
abbrev decoded : Text → Transaction
decoded rlp = record {
  from = codes "0xa";
  gas_limit = 21000;
  hash = rlp;
  call_data = [];
  nonce = 7;
  to = none;
  value = 1;
  type = some 2;
  v = some 27;
  r = none;
  s = none;
  chain_id = 298;
  gas_price = none;
  max_fee_per_gas = some 5;
  max_priority_fee_per_gas = some 0;
}

content_lem_example :
    ((o : List (Text × ByNonce)) × (content decoded true true pending ≡ ok o)
      × (at_address_and_nonce (codes "0xa") 7 o
          ≡ last_shown decoded
              (λ t. text_eq t.from (codes "0xa") && t.nonce == 7)
              (get_all_transactions pending)))
    × (content decoded true false pending ≡ err unsupported_method)
    × ((pool : Bool) → content decoded false pool pending ≡ err unsupported_method)
content_lem_example = content_lem decoded pending (codes "0xa") 7

-- Calls on both storages of pending transactions, which start empty.
abbrev nothing : Pending
nothing = record { of_address = λ a r. false; at_all = λ r. false }

abbrev calls : List (ℕ × Op)
calls =
    (1, save alice (codes "0x1"))
    ∷ (2, save bob (codes "0x2"))
    ∷ (2, drop alice (codes "0x1"))
    ∷ (10, drop_all)
    ∷ (20, save bob (codes "0x3"))
    ∷ []

nothing_stored : pair_sets.Db
unfolding pair_sets
nothing_stored = ([], λ k. none)

empty-Represents : Represents init nothing
unfolding init get_transaction_payloads lookup has
empty-Represents = record { lists = λ a r. refl; index = λ r. refl }

empty-RedisRepresents : RedisRepresents pair_sets 60 (omega arith) 0 nothing_stored nothing
unfolding Redis.get_transaction_payloads Redis.get_all_transaction_payloads pair_sets nothing_stored
    members has
empty-RedisRepresents = record { lists = λ a r i. refl; index = λ r. refl }

empty-IsOnce : IsOnce init
unfolding init get_transaction_payloads lookup
empty-IsOnce a = tt

run-SameAnswers_example :
    SameAnswers pair_sets 60
      (omega arith)
      59
      (run_local init calls)
      (run_redis pair_sets 60 (omega arith) nothing_stored calls)
unfolding pair_sets nothing_stored text_eq
run-SameAnswers_example =
    run-SameAnswers pair_sets 60 (omega arith) calls 0 60 59 init nothing_stored nothing
      empty-Represents empty-RedisRepresents empty-IsOnce (refl, (refl, (refl, (tt, (refl, tt)))))
      (λ j. tt) (omega arith)
      (
        omega arith,
        omega arith,
        (
          omega arith,
          omega arith,
          (
            omega arith,
            omega arith,
            (omega arith, omega arith, (omega arith, omega arith, (omega arith, omega arith))),
          ),
        ),
      )

-- After the time to live, Redis answers with no payload, and the memory with the one that was saved.
expired_payload :
    (Redis.get_list pair_sets 60 80 (run_redis pair_sets 60 (omega arith) nothing_stored calls) bob
      ≡ 0)
    × (get_list (run_local init calls) bob ≡ 1)
unfolding program pair_sets nothing_stored members without without_keys keys_with Redis.get_list
    Redis.key_for Redis.add_to_list Redis.remove_from_list Redis.remove_all
    Redis.global_pending_txs_key starts_with remove_all
expired_payload = (refl, refl)
