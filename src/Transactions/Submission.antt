-- ===== src/Transactions/Submission.antt =====
-- TransactionService.ts: the submission of a transaction, and what is answered when it fails.
use mpcq_json_rpc_relay.Prelude.{
  ℕ, zero, suc, ◌+◌, Bool, true, false, Option, none, some, [], Text, codes, ltb, ◌==◌,
  if◌then◌else◌,
}
use mpcq_json_rpc_relay.Prelude.Results.{Result, ok, err, ◌>>=◌, ◌>>◌}
use mpcq_json_rpc_relay.Formatters.TransactionId.{is_transaction_id}
use mpcq_json_rpc_relay.Precheck.Gas.{PrecheckError}
use mpcq_json_rpc_relay.Common.{json_rpc}
use mpcq_json_rpc_relay.Transactions.{
  SendError, internal_error, nonce_too_high, nonce_too_low, precheck, common, sdk, other, Reply,
  hash, error_value, Submitted, Outside,
}

-- The local variables of `submitTransaction` at its end; `deleted` is the file that is removed.
pub record Submission : Type 0 where
  pub tx_submitted : Bool
  pub submitted_transaction_id : Text
  pub error : Option SendError
  pub deleted : Option Text

-- The text of an id that may be undefined, which the pattern sees as `undefined`.
abbrev pub id_text : Option Text → Text
id_text none = codes "undefined"
id_text (some id) = id

abbrev pub or_empty_text : Option Text → Text
or_empty_text none = []
or_empty_text (some id) = id

-- `e instanceof SDKClientError`: its id.
abbrev pub failed_id : SendError → Text
failed_id (sdk e) = e.transaction_id
failed_id _ = []

abbrev pub invalid_id : SendError
invalid_id =
    internal_error (codes "Transaction successfully submitted but returned invalid transactionID")

-- A submission that the network took. The id stays also when it is not valid.
unfoldable pub after_submit : Submitted → Submission
unfolding is_transaction_id
after_submit r = record {
  tx_submitted = true;
  submitted_transaction_id = or_empty_text r.transaction_id;
  error = if is_transaction_id (id_text r.transaction_id) then none else some invalid_id;
  deleted = r.file_id;
}

-- A submission that failed, or the exchange rate before it.
unfoldable pub failed_submit : SendError → Submission
failed_submit e = record {
  tx_submitted = false;
  submitted_transaction_id = failed_id e;
  error = some e;
  deleted = none;
}

unfoldable pub submission_of : Result SendError Submitted → Submission
unfolding after_submit failed_submit
submission_of (err e) = failed_submit e
submission_of (ok r) = after_submit r

-- The exchange rate is asked for first, in the same `try`.
unfoldable pub submit_at : (ℕ → Result SendError Submitted) → Result SendError ℕ → Submission
unfolding failed_submit submission_of
submit_at submitted (err e) = failed_submit e
submit_at submitted (ok rate) = submission_of (submitted rate)

unfoldable pub submit_transaction : Outside → ℕ → Submission
unfolding submit_at
submit_transaction O network_gas_price = submit_at (O.submitted network_gas_price) O.exchange_rate

-- One round of the loop that waits for a nonce other than the transaction's; `none` is null.
unfoldable pub poll_step :
    ℕ → Result SendError (Option ℕ) → Result SendError (Option ℕ) → Result SendError (Option ℕ)
poll_step nonce (err e) later = err e
poll_step nonce (ok none) later = ok none
poll_step nonce (ok (some n)) later = if n == nonce then later else ok (some n)

unfoldable pub poll_account_nonce : Outside → ℕ → ℕ → ℕ → Result SendError (Option ℕ)
unfolding poll_step
poll_account_nonce O nonce i zero = ok none
poll_account_nonce O nonce i (suc left) =
    poll_step nonce (O.account_nonce i) (poll_account_nonce O nonce (i + 1) left)

abbrev pub no_nonce : SendError
no_nonce = internal_error (codes "Cannot find updated account nonce for WRONG_NONCE error.")

-- `!accountNonce` holds of null and of 0.
unfoldable pub nonce_error : ℕ → Option ℕ → Result SendError Reply
nonce_error nonce none = err no_nonce
nonce_error nonce (some zero) = err no_nonce
nonce_error nonce (some (suc n)) =
    if ltb (suc n) nonce
    then ok (error_value (nonce_too_high nonce (suc n)))
    else ok (error_value (nonce_too_low nonce (suc n)))

-- `e instanceof JsonRpcError`.
unfoldable pub is_json_rpc : SendError → Bool
is_json_rpc (common (json_rpc e)) = true
is_json_rpc (common _) = false
is_json_rpc (sdk e) = false
is_json_rpc (other message) = false
is_json_rpc (precheck PrecheckError.mirror_node_failure) = false
is_json_rpc _ = true

abbrev pub message_of : SendError → Text
message_of (sdk e) = e.message
message_of (other message) = message
message_of _ = []

-- The end of the error handler: what was not submitted is an error, and of what was submitted the
-- hash is computed.
unfoldable pub submitted_or_error : Outside → Bool → SendError → Result SendError Reply
submitted_or_error O tx_submitted e =
    if tx_submitted
    then O.revert_reason e >> ok (hash O.computed_hash)
    else ok (error_value (internal_error (message_of e)))

unfoldable pub send_raw_transaction_error_handler :
    Outside → ℕ → Bool → SendError → Result SendError Reply
unfolding is_json_rpc submitted_or_error nonce_error poll_account_nonce
send_raw_transaction_error_handler O nonce tx_submitted (sdk e) =
    if e.is_wrong_nonce
    then (do
      account_nonce ← poll_account_nonce O nonce 0 O.retries
      nonce_error nonce account_nonce)
    else submitted_or_error O tx_submitted (sdk e)
send_raw_transaction_error_handler O nonce tx_submitted e =
    if is_json_rpc e then ok (error_value e) else submitted_or_error O tx_submitted e
