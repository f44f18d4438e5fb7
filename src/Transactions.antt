-- ===== src/Transactions.antt =====
-- packages/relay/src/lib/services/ethService/transactionService/TransactionService.ts: how a raw
-- transaction is sent. The account lock, the checks, the pool of pending transactions and the gas
-- price are those of the other parts; the submission to the network (HAPIService) and the requests of
-- the mirror node after it are parameters. `from` is the empty text for null.
pub mod Submission
pub mod Sending
pub mod Release
pub mod Outcomes
pub mod Nonces
mod Examples
use mpcq_json_rpc_relay.Prelude.{ℕ, Bool, Option, Text}
use mpcq_json_rpc_relay.Prelude.Results.{Result, ok, err}
use mpcq_json_rpc_relay.Precheck.Gas.{Transaction, PrecheckError}
use mpcq_json_rpc_relay.Common.{Thrown}

-- What the code reads of an `SDKClientError`; a missing id is the empty text.
pub record SdkClientError : Type 0 where
  pub transaction_id : Text
  pub is_wrong_nonce : Bool
  pub message : Text

-- What is thrown or answered as an error. The first six are JsonRpcErrors.
pub data SendError : Type 0 where
  unsupported_operation invalid_arguments : SendError
  internal_error : Text → SendError
  nonce_too_high nonce_too_low : ℕ → ℕ → SendError
  precheck : PrecheckError → SendError
  common : Thrown → SendError
  sdk : SdkClientError → SendError
  other : Text → SendError

-- `sendRawTransaction` answers a hash, or a JsonRpcError as a value.
pub data Reply : Type 0 where
  hash : Text → Reply
  error_value : SendError → Reply

-- What `submitEthereumTransaction` gives back: the file of the call data, and the id.
pub record Submitted : Type 0 where
  pub file_id : Option Text
  pub transaction_id : Option Text

-- The outside: the answers of the network and of the mirror node about one transaction, and what
-- reading its bytes gives.
pub record Outside : Type 0 where
  pub parsed : Result SendError Transaction
  pub computed_hash : Text
  pub exchange_rate : Result SendError ℕ
  pub submitted : ℕ → ℕ → Result SendError Submitted
  pub contract_result : Option Text → Result SendError (Option (Option Text))
  pub account_nonce : ℕ → Result SendError (Option ℕ)
  pub revert_reason : SendError → Result SendError (Unit {0})
  pub retries : ℕ

-- What the flow calls of `LockService` (lib/services/lockService), whatever strategy is behind it; no
-- law of it is assumed.
pub record LockService : Type 1 where
  pub Locks : Type 0
  pub acquire_lock : Locks → Text → Locks × Option Text
  pub release_lock : Locks → Text → Text → Locks
