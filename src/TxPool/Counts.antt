-- ===== src/TxPool/Counts.antt =====
-- What the service answers after a save or a removal: counts by address, and the payloads.
use mpcq_json_rpc_relay.Prelude.{
  ◌+◌, ◌≡◌, true, false, Text, length, if◌then◌else◌, arith, text_eq, text_eq_iff, ◌≢◌,
  to_lower_case,
}
use mpcq_json_rpc_relay.Prelude.Sets.{has, has-add, has-delete, length-add, length-delete}
use mpcq_json_rpc_relay.TxPool.{
  LocalPendingTransactionStorage, get_list, add_to_list, remove_from_list, get_transaction_payloads,
  save_transaction, remove_transaction, get_pending_count, get_transactions, get_all_transactions,
  get_all_transaction_payloads,
}
use mpcq_json_rpc_relay.TxPool.Index.{
  IsIndexed, held, held-add, held-remove, global-add, global-remove, payloads-add_to_list,
  payloads-remove_from_list,
}

get_list-length :
    (s : LocalPendingTransactionStorage) (a : Text)
    → get_list s a ≡ length (get_transaction_payloads s a)
unfolding get_list get_transaction_payloads
get_list-length s a = ground arith

-- A save adds one to the count of the address, in any case of its letters, if the payload is not
-- pending there yet, and changes no other address's count.
pub get_pending_count-save :
    (s : LocalPendingTransactionStorage) (addr other rlp : Text)
    → get_pending_count (save_transaction true s addr rlp) other
      ≡ get_pending_count s other
        + (if text_eq (to_lower_case addr) (to_lower_case other)
            then (if has rlp (get_transactions s addr) then 0 else 1)
            else 0)
unfolding get_pending_count save_transaction get_transactions
get_pending_count-save s addr other rlp =
    let a = to_lower_case addr in
    let b = to_lower_case other in
    ground (
      arith,
      get_list-length (add_to_list s a rlp) b,
      get_list-length s b,
      payloads-add_to_list s a rlp b,
      length-add rlp (get_transaction_payloads s a),
      text_eq_iff a b,
    )

-- In a consistent storage, a removal takes one from the count of the address if the payload is
-- pending there, and changes no other address's count.
pub get_pending_count-remove :
    (s : LocalPendingTransactionStorage) (addr other rlp : Text)
    → IsIndexed s
    → get_pending_count (remove_transaction true s addr rlp) other
        + (if text_eq (to_lower_case addr) (to_lower_case other)
            then (if has rlp (get_transactions s addr) then 1 else 0)
            else 0)
      ≡ get_pending_count s other
unfolding get_pending_count remove_transaction get_transactions
get_pending_count-remove s addr other rlp v =
    let a = to_lower_case addr in
    let b = to_lower_case other in
    ground (
      arith,
      get_list-length (remove_from_list s a rlp) b,
      get_list-length s b,
      payloads-remove_from_list s a rlp b,
      length-delete rlp (get_transaction_payloads s a) (v.distinct a),
      text_eq_iff a b,
    )

-- Saving a payload that is pending nowhere and removing it again leaves every answer as it was.
pub remove-save :
    (s : LocalPendingTransactionStorage) (addr rlp other r : Text)
    → has rlp (get_transactions s addr) ≡ false
    → has rlp (get_all_transactions s) ≡ false
    → let s' = remove_transaction true (save_transaction true s addr rlp) addr rlp in
      (has r (get_transactions s' other) ≡ has r (get_transactions s other))
      × (has r (get_all_transactions s') ≡ has r (get_all_transactions s))
unfolding save_transaction remove_transaction get_transactions get_all_transactions
    get_all_transaction_payloads
remove-save s addr rlp other r h g =
    let a = to_lower_case addr in
    let s₁ = add_to_list s a rlp in
    (
      ground (
        arith,
        held-remove s₁ a rlp (to_lower_case other) r,
        held-add s a rlp a r,
        held-add s a rlp (to_lower_case other) r,
        text_eq_iff rlp r,
        text_eq_iff a (to_lower_case other),
        text_eq_iff a a,
      ),
      ground (
        arith,
        global-remove s₁ a rlp,
        global-add s a rlp,
        has-delete rlp r s₁.global_transaction_index,
        has-add rlp r s.global_transaction_index,
        text_eq_iff rlp r,
      ),
    )

-- A removal of a payload for another address than the one that holds it takes the payload out of the
-- index and leaves it in its sender's list: the storage is not consistent afterwards.
pub remove-not-IsIndexed :
    (s : LocalPendingTransactionStorage) (addr other rlp : Text)
    → has rlp (get_transactions s addr) ≡ true
    → to_lower_case other ≢ to_lower_case addr
    → let s' = remove_transaction true s other rlp in
      (has rlp (get_transactions s' addr) ≡ true)
      × (has rlp (get_all_transactions s') ≡ false)
      × (¬ IsIndexed s')
unfolding remove_transaction get_transactions get_all_transactions get_all_transaction_payloads
remove-not-IsIndexed s addr other rlp h ne =
    let a = to_lower_case addr in
    let b = to_lower_case other in
    let held_still : held (remove_from_list s b rlp) a rlp ≡ true =
      ground (arith, held-remove s b rlp a rlp, text_eq_iff b a) in
    let dropped : has rlp (remove_from_list s b rlp).global_transaction_index ≡ false = ground (
      arith,
      global-remove s b rlp,
      has-delete rlp rlp s.global_transaction_index,
      text_eq_iff rlp rlp,
    ) in
    (held_still, dropped, λ v. cc (v.indexed a rlp held_still, dropped))
