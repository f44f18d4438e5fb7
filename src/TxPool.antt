-- ===== src/TxPool.antt =====
-- packages/relay/src/lib/services/transactionPoolService: the local storage of pending transactions
-- (LocalPendingTransactionStorage.ts) and the service in front of it (transactionPoolService.ts).
pub mod Index
pub mod Counts
pub mod Api
pub mod Grouping
pub mod Redis
pub mod Refinement
pub mod Expiry
pub mod Agreement
pub mod PairSets
pub mod TimedSets
mod Examples
use mpcq_json_rpc_relay.Prelude.{
  ℕ, ◌≡◌, Bool, true, false, Option, none, some, List, [], ◌∷◌, Text, lookup, insert, remove,
  length, to_lower_case, if◌then◌else◌,
}
use mpcq_json_rpc_relay.Prelude.Sets.{has, add, delete}

-- The payloads of each address, and those of all addresses.
pub record LocalPendingTransactionStorage : Type 0 where
  pub pending_transactions : List (Text × List Text)
  pub global_transaction_index : List Text

pub init : LocalPendingTransactionStorage
init = record { pending_transactions = []; global_transaction_index = [] }

-- `set.size === 0`.
abbrev pub is_nil : List Text → Bool
is_nil [] = true
is_nil (x ∷ xs) = false

pub get_list : LocalPendingTransactionStorage → Text → ℕ
get_list s addr = elim (lookup addr s.pending_transactions) [ none ↦ 0 | some txs ↦ length txs ]

pub add_to_list : LocalPendingTransactionStorage → Text → Text → LocalPendingTransactionStorage
add_to_list s addr rlp_hex =
    let pending : List (Text × List Text) = elim (lookup addr s.pending_transactions) [
      | none ↦ insert addr [] s.pending_transactions
      | some _ ↦ s.pending_transactions
    ] in
    record {
      pending_transactions = elim (lookup addr pending) [
        | none ↦ pending
        | some address_transactions ↦ insert addr (add rlp_hex address_transactions) pending
      ];
      global_transaction_index = add rlp_hex s.global_transaction_index;
    }

pub remove_from_list : LocalPendingTransactionStorage → Text → Text → LocalPendingTransactionStorage
remove_from_list s address rlp_hex = record {
  pending_transactions = elim (lookup address s.pending_transactions) [
    | none ↦ s.pending_transactions
    | some address_transactions ↦
        let left = delete rlp_hex address_transactions in
        if is_nil left
        then remove address s.pending_transactions
        else insert address left s.pending_transactions
  ];
  global_transaction_index = delete rlp_hex s.global_transaction_index;
}

pub remove_all : LocalPendingTransactionStorage → LocalPendingTransactionStorage
remove_all s = record { pending_transactions = []; global_transaction_index = [] }

pub get_all_transaction_payloads : LocalPendingTransactionStorage → List Text
get_all_transaction_payloads s = s.global_transaction_index

pub get_transaction_payloads : LocalPendingTransactionStorage → Text → List Text
get_transaction_payloads s address = elim (lookup address s.pending_transactions) [
  | none ↦ []
  | some txs ↦ txs
]

-- The service. `enabled` is the option ENABLE_TX_POOL; the local storage never rejects.
unfoldable pub save_transaction :
    Bool → LocalPendingTransactionStorage → Text → Text → LocalPendingTransactionStorage
save_transaction enabled s address serialized =
    if enabled then add_to_list s (to_lower_case address) serialized else s

unfoldable pub remove_transaction :
    Bool → LocalPendingTransactionStorage → Text → Text → LocalPendingTransactionStorage
remove_transaction enabled s address rlp_hex =
    if enabled then remove_from_list s (to_lower_case address) rlp_hex else s

pub get_pending_count : LocalPendingTransactionStorage → Text → ℕ
get_pending_count s address = get_list s (to_lower_case address)

pub get_transactions : LocalPendingTransactionStorage → Text → List Text
get_transactions s address = get_transaction_payloads s (to_lower_case address)

pub get_all_transactions : LocalPendingTransactionStorage → List Text
get_all_transactions s = get_all_transaction_payloads s
