-- ===== src/Transactions/Sending.antt =====
-- TransactionService.ts: `sendRawTransaction` and what runs after its checks.
use mpcq_json_rpc_relay.Prelude.{
  ℕ, Bool, Option, none, some, [], ◌∷◌, Text, codes, text_eq, if◌then◌else◌,
}
use mpcq_json_rpc_relay.Prelude.Results.{Result, ok, err, ◌>>=◌, ◌>>◌}
use mpcq_json_rpc_relay.Formatters.TransactionId.{format_transaction_id_without_query_params}
use mpcq_json_rpc_relay.Precheck.Gas.{Transaction, PrecheckError}
use mpcq_json_rpc_relay.Precheck.Checks.{Options, send_raw_transaction_check}
use mpcq_json_rpc_relay.Precheck.Checks as Checks
use mpcq_json_rpc_relay.TxPool.{
  LocalPendingTransactionStorage, save_transaction, remove_transaction, get_pending_count,
}
use mpcq_json_rpc_relay.Common.{MirrorNode, Config}
use mpcq_json_rpc_relay.Common.Fees.{get_gas_price_in_weibars, add_percentage_buffer_to_gas_price}
use mpcq_json_rpc_relay.Transactions.{
  SendError, unsupported_operation, internal_error, precheck, common, sdk, Reply, hash, Outside,
  LockService,
}
use mpcq_json_rpc_relay.Transactions.Submission.{
  Submission, submit_transaction, send_raw_transaction_error_handler,
}

-- The options that the flow reads.
pub record Flags : Type 0 where
  pub read_only : Bool
  pub use_async_tx_processing : Bool
  pub enable_tx_pool : Bool
  pub chain : Text

-- `parsedTx.from?.toString() || ''`.
abbrev pub caller_of : Transaction → Text
caller_of tx = elim tx.from [ none ↦ [] | some from ↦ from ]

abbrev pub no_record : SendError
no_record = internal_error (codes "No matching transaction record retrieved")

abbrev pub null_hash : SendError
null_hash = internal_error (codes "Transaction returned a null transaction hash")

-- The error when the mirror node has no record: that of the SDK if there is one.
abbrev no_record_error : Option SendError → SendError
no_record_error (some (sdk e)) = sdk e
no_record_error _ = no_record

-- The body of the `try` that asks the mirror node for the hash.
unfoldable pub retrieve_hash : Outside → Submission → Result SendError Text
unfolding format_transaction_id_without_query_params
retrieve_hash O s = do
  result ← O.contract_result (format_transaction_id_without_query_params s.submitted_transaction_id)
  elim result [
    | none ↦ err (no_record_error s.error)
    | some none ↦ err null_hash
    | some (some h) ↦ ok h
  ]

-- What is answered after a submission. A missing error at the end is read as null, which throws.
unfoldable pub answer_submission : Outside → ℕ → Submission → Result SendError Reply
unfolding retrieve_hash send_raw_transaction_error_handler
answer_submission O nonce s =
    if text_eq s.submitted_transaction_id []
    then (elim s.error [
      | none ↦ err (SendError.other (codes "TypeError"))
      | some e ↦ send_raw_transaction_error_handler O nonce s.tx_submitted e
    ])
    else (elim (retrieve_hash O s) [
      | ok h ↦ ok (hash h)
      | err e ↦ send_raw_transaction_error_handler O nonce s.tx_submitted e
    ])

-- `genericErrorHandler` on what a check throws: an error without a class of its own is internal.
unfoldable pub validation_error : PrecheckError → SendError
validation_error PrecheckError.type_error = internal_error (codes "TypeError")
validation_error e = precheck e

module _ (L : LockService) (F : Flags) where
  open L use {Locks, acquire_lock, release_lock}

  pub record State : Type 0 where
    pub locks : Locks
    pub pool : LocalPendingTransactionStorage

  -- `if (lockSessionKey) releaseLock(...)`.
  unfoldable pub release_if : Option Text → Text → State → State
  release_if none address s = s
  release_if (some session) address s = record s { locks = release_lock s.locks address session }

  -- The state after the submission, and the answer.
  unfoldable pub send_raw_transaction_processor :
      Outside → Transaction → ℕ → Option Text → State → State × Result SendError Reply
  unfolding submit_transaction release_if answer_submission
  send_raw_transaction_processor O tx network_gas_price session s =
      let submission = submit_transaction O network_gas_price in
      let released = release_if session (caller_of tx) s in
      (
        record released {
          pool = remove_transaction F.enable_tx_pool released.pool (caller_of tx) tx.serialized;
        },
        answer_submission O tx.nonce submission,
      )

  -- The lock is taken when the sender is known.
  unfoldable pub acquire_for : Text → State → State × Option Text
  acquire_for [] s = (s, none)
  acquire_for (c ∷ from) s =
      let acquired = acquire_lock s.locks (c ∷ from) in
      (record s { locks = acquired.0 }, acquired.1)

  -- `saveTransaction(...)`, before the transaction is processed.
  unfoldable pub save_pending : Transaction → State → State
  save_pending tx s = record s {
    pool = save_transaction F.enable_tx_pool s.pool (caller_of tx) tx.serialized;
  }

  -- What follows the call of the processor. In the background the answer is the computed hash and
  -- nothing catches an error; else an error releases the lock again.
  unfoldable pub after_processing :
      Outside
      → Transaction
      → Option Text
      → State × Result SendError Reply
      → State × Result SendError Reply
  unfolding release_if
  after_processing O tx session (s, answer) =
      if F.use_async_tx_processing then (s, ok (hash O.computed_hash)) else (elim answer [
        | ok reply ↦ (s, ok reply)
        | err e ↦ (release_if session (caller_of tx) s, err e)
      ])

  module _ (M : MirrorNode) (C : Config) (options : Options)
      (get_account : Text → Checks.Reply) where
    -- `validateRawTransaction`.
    unfoldable pub validate_raw_transaction : Transaction → ℕ → State → Result SendError (Unit {0})
    unfolding send_raw_transaction_check validation_error
    validate_raw_transaction tx network_gas_price s =
        elim (send_raw_transaction_check options F.chain get_account (get_pending_count s.pool) tx
          (caller_of tx) network_gas_price) [ err e ↦ err (validation_error e) | ok _ ↦ ok tt ]

    -- The price of gas, and the checks with it.
    unfoldable pub checked_gas_price : ℕ → Transaction → State → Result SendError ℕ
    unfolding get_gas_price_in_weibars add_percentage_buffer_to_gas_price validate_raw_transaction
    checked_gas_price t tx s = elim (get_gas_price_in_weibars M C t none) [
      | err e ↦ err (common e)
      | ok price ↦ do
        let buffered = add_percentage_buffer_to_gas_price C price
        validate_raw_transaction tx buffered s
        ok buffered
    ]

    -- The body of the `try`, and its `catch`. When the transaction is processed in the background the
    -- answer is the computed hash, and the state is that after the background work.
    unfoldable pub send_checked :
        Outside
        → Transaction
        → Option Text
        → Result SendError ℕ
        → State
        → State × Result SendError Reply
    unfolding send_raw_transaction_processor release_if after_processing save_pending
    send_checked O tx session (err e) s = (release_if session (caller_of tx) s, err e)
    send_checked O tx session (ok price) s =
        after_processing O tx session
          (send_raw_transaction_processor O tx price session (save_pending tx s))

    -- A transaction whose bytes were read.
    unfoldable pub send_parsed : ℕ → Outside → Transaction → State → State × Result SendError Reply
    unfolding acquire_for checked_gas_price send_checked
    send_parsed t O tx s =
        let locked = acquire_for (caller_of tx) s in
        send_checked O tx locked.1 (checked_gas_price t tx locked.0) locked.0

    unfoldable pub send_raw_transaction : ℕ → Outside → State → State × Result SendError Reply
    unfolding send_parsed
    send_raw_transaction t O s =
        if F.read_only
        then (s, err unsupported_operation)
        else (elim O.parsed [ err e ↦ (s, err e) | ok tx ↦ send_parsed t O tx s ])
