-- ===== src/Transactions/Release.antt =====
-- What a request to send a transaction leaves behind: the lock released, and the transaction not in
-- the pool.
use mpcq_json_rpc_relay.Prelude.{
  ℕ, ◌≡◌, ◌⊎◌, refl, ap, true, false, some, Text, text_eq, to_lower_case, Bool-cases, Bool, inl,
  inr, ◌&&◌,
}
use mpcq_json_rpc_relay.Prelude.Results.{Result, ok, err}
use mpcq_json_rpc_relay.Precheck.Gas.{Transaction}
use mpcq_json_rpc_relay.Precheck.Checks.{Options}
use mpcq_json_rpc_relay.Precheck.Checks as Checks
use mpcq_json_rpc_relay.TxPool.{
  LocalPendingTransactionStorage, save_transaction, remove_transaction,
}
use mpcq_json_rpc_relay.Common.{MirrorNode, Config}
use mpcq_json_rpc_relay.Transactions.{SendError, Reply, Outside, LockService}
use mpcq_json_rpc_relay.Transactions.Sending.{
  Flags, caller_of, State, release_if, save_pending, send_raw_transaction_processor,
  checked_gas_price, acquire_for, after_processing, send_checked, send_parsed, send_raw_transaction,
}

-- The pool as a processed transaction leaves it.
abbrev processed_pool :
    Flags → Transaction → LocalPendingTransactionStorage → LocalPendingTransactionStorage
processed_pool F tx pool =
    remove_transaction F.enable_tx_pool
      (save_transaction F.enable_tx_pool pool (caller_of tx) tx.serialized) (caller_of tx)
      tx.serialized

-- The checks passed.
abbrev pub passed {ℓ κ} : {E : Type κ} {A : Type ℓ} → Result E A → Bool
passed (ok a) = true
passed (err e) = false

-- The payload at the address is the transaction at its sender.
abbrev pub is_this : Transaction → Text → Text → Bool
is_this tx a r = text_eq (to_lower_case (caller_of tx)) a && text_eq tx.serialized r

module _ (L : LockService) (F : Flags) where
  -- The lock was released by the session, once or once more.
  abbrev pub IsReleased : L.Locks → L.Locks → Text → Text → Type 0
  IsReleased l l' a k =
      (l' ≡ L.release_lock l a k) ⊎ (l' ≡ L.release_lock (L.release_lock l a k) a k)

  processor-locks :
      (O : Outside) (tx : Transaction) (price : ℕ) (k : Text) (s : State L F)
      → (send_raw_transaction_processor L F O tx price (some k) s).0.locks
        ≡ L.release_lock s.locks (caller_of tx) k
  unfolding send_raw_transaction_processor release_if
  processor-locks O tx price k s = refl

  after_processing-locks :
      (O : Outside) (tx : Transaction) (k : Text) (l : L.Locks)
      (done : State L F × Result SendError Reply)
      → done.0.locks ≡ L.release_lock l (caller_of tx) k
      → IsReleased l (after_processing L F O tx (some k) done).0.locks (caller_of tx) k
  unfolding after_processing release_if
  after_processing-locks O tx k l (s, ok reply) once = elim (Bool-cases F.use_async_tx_processing) [
    | inl e ↦ rw e (inl once)
    | inr e ↦ rw e (inl once)
  ]
  after_processing-locks O tx k l (s, err x) once = elim (Bool-cases F.use_async_tx_processing) [
    | inl e ↦ rw e (inl once)
    | inr e ↦ rw e (inr (ap (λ m. L.release_lock m (caller_of tx) k) once))
  ]

  module _ (M : MirrorNode) (C : Config) (options : Options)
      (get_account : Text → Checks.Reply) where
    send_checked-locks :
        (O : Outside) (tx : Transaction) (k : Text) (checked : Result SendError ℕ) (s : State L F)
        → IsReleased s.locks
            (send_checked L F M C options get_account O tx (some k) checked s).0.locks
            (caller_of tx)
            k
    unfolding send_checked save_pending release_if
    send_checked-locks O tx k (err e) s = inl refl
    send_checked-locks O tx k (ok price) s =
        after_processing-locks O tx k s.locks _
          (processor-locks O tx price k (save_pending L F tx s))

    send_parsed_lem :
        (t : ℕ) (O : Outside) (s : State L F) (tx : Transaction)
        → F.read_only ≡ false
        → O.parsed ≡ ok tx
        → send_raw_transaction L F M C options get_account t O s
          ≡ send_parsed L F M C options get_account t O tx s
    unfolding send_raw_transaction
    send_parsed_lem t O s tx writes parses = rw (writes, parses) refl

    -- However the sending of a transaction ends, in an answer or an error, at once or in the
    -- background: the session that was given the lock of the sender has released it, and the lock was
    -- not used otherwise since it was acquired, except that an error after the processing releases it
    -- once more.
    pub send_raw_transaction-IsReleased :
        (t : ℕ) (O : Outside) (s : State L F) (tx : Transaction) (session : Text)
        → F.read_only ≡ false
        → O.parsed ≡ ok tx
        → (acquire_for L F (caller_of tx) s).1 ≡ some session
        → IsReleased
            (acquire_for L F (caller_of tx) s).0.locks
            (send_raw_transaction L F M C options get_account t O s).0.locks
            (caller_of tx)
            session
    unfolding send_parsed
    send_raw_transaction-IsReleased t O s tx session writes parses locked =
        rw (send_parsed_lem t O s tx writes parses, locked)
          (send_checked-locks O tx session
            (checked_gas_price L F M C options get_account t tx
              (acquire_for L F (caller_of tx) s).0)
            (acquire_for L F (caller_of tx) s).0)
