-- ===== src/Transactions/Examples.antt =====
-- Sending a transaction with a lock table and a small network.
use mpcq_json_rpc_relay.Prelude.{
  ℕ, ◌<◌, ◌≡◌, ◌⊎◌, refl, Bool, true, false, Option, none, some, List, [], ◌∷◌, Text, codes,
  text_eq, lookup, insert, remove, if◌then◌else◌,
}
use mpcq_json_rpc_relay.Prelude.Int.{pos}
use mpcq_json_rpc_relay.Prelude.Results.{Result, ok, err}
use mpcq_json_rpc_relay.Formatters.TransactionId.{
  is_transaction_id, id_at_front, after_digit_dot, after_digits, after_char,
  format_transaction_id_without_query_params,
}
use mpcq_json_rpc_relay.Precheck.Gas.{Transaction}
use mpcq_json_rpc_relay.Precheck.Checks.{Options}
use mpcq_json_rpc_relay.Precheck.Checks as Checks
use mpcq_json_rpc_relay.Common.{MirrorNode, Config}
use mpcq_json_rpc_relay.Transactions.{
  SdkClientError, SendError, nonce_too_high, nonce_too_low, sdk, Submitted, Outside, LockService,
}
use mpcq_json_rpc_relay.Transactions.Submission.{
  Submission, submit_transaction, submit_at, submission_of, after_submit, poll_account_nonce,
  poll_step, nonce_error, send_raw_transaction_error_handler,
}
use mpcq_json_rpc_relay.Transactions.Sending.{
  Flags, State, acquire_for, answer_submission, retrieve_hash, send_raw_transaction,
}
use mpcq_json_rpc_relay.Transactions.Release.{IsReleased, send_raw_transaction-IsReleased}
use mpcq_json_rpc_relay.Transactions.Outcomes.{submit_transaction-error, answer_submission-hash}
use mpcq_json_rpc_relay.Transactions.Nonces.{IsAnswered, send_raw_transaction_error_handler-nonce}

-- A table of the sessions that hold the lock of an address.
abbrev table_holds : List (Text × Text) → Text → Text → Bool
table_holds l address session = elim (lookup address l) [
  | none ↦ false
  | some k ↦ text_eq k session
]

abbrev table_release : List (Text × Text) → Text → Text → List (Text × Text)
table_release l address session = if table_holds l address session then remove address l else l

abbrev table : LockService
table = record {
  Locks = List (Text × Text);
  acquire_lock = λ l address. (insert address (codes "k1") l, some (codes "k1"));
  release_lock = table_release;
}

abbrev flags : Flags
flags = record {
  read_only = false;
  use_async_tx_processing = false;
  enable_tx_pool = true;
  chain = codes "0x12a";
}

abbrev sender : Text
sender = codes "0xab"

abbrev tx : Transaction
tx = record {
  type = some 0;
  from = some sender;
  to = none;
  nonce = 3;
  gas_limit = 60000;
  gas_price = some 900000000000;
  max_fee_per_gas = none;
  max_priority_fee_per_gas = none;
  value = pos 0;
  chain_id = 298;
  signature_v = none;
  input = codes "0x";
  access_list = [];
  serialized = codes "0xf8";
}

abbrev wrong_nonce : SdkClientError
wrong_nonce = record { transaction_id = []; is_wrong_nonce = true; message = codes "WRONG_NONCE" }

abbrev network : Result SendError Submitted → Option ℕ → Outside
network submitted nonce = record {
  parsed = ok tx;
  computed_hash = codes "0xc0";
  exchange_rate = ok 12;
  submitted = λ price rate. submitted;
  contract_result = λ id. ok (some (some (codes "0xee")));
  account_nonce = λ i. ok nonce;
  revert_reason = λ e. ok tt;
  retries = 5;
}

abbrev taken : Outside
taken = network (ok (record { file_id = none; transaction_id = some (codes "0.0.2@17.5") })) none

abbrev refused : ℕ → Outside
refused nonce = network (err (sdk wrong_nonce)) (some nonce)

abbrev node : MirrorNode
node = record {
  get_latest_block = λ t. ok none;
  get_block = λ t b. ok none;
  get_logs_by_address = λ t a params. ok none;
  get_logs = λ t params. ok none;
  get_blocks_after = λ t tag. ok none;
  get_network_fees = λ t time.
      ok (some (record { transaction_type = codes "EthereumTransaction"; gas = 85 } ∷ []));
  resolve_entity_type = λ t a. ok none;
}

abbrev config : Config
config = record {
  logs_block_range_limit = 3;
  max_block_range = 5;
  filter_api_enabled = true;
  filter_ttl = 1000;
  gas_price_percentage_buffer = 0;
}

abbrev options : Options
options = record {
  max_transaction_fee_threshold = 15000000;
  send_raw_transaction_size_limit = 131072;
  call_data_size_limit = 131072;
  gas_price_tiny_bar_buffer = 10;
  paymaster_enabled = false;
  paymaster_whitelist = [];
  deterministic_deployer_transaction = codes "0xf8a5";
}

abbrev accounts : Text → Checks.Reply
accounts a = Checks.found (record {
  ethereum_nonce = Checks.number 3;
  balance = some 100000000;
  receiver_sig_required = false;
})

abbrev start : State table flags
start = record {
  locks = [];
  pool = record { pending_transactions = []; global_transaction_index = [] };
}

send_raw_transaction-IsReleased_example :
    IsReleased table flags
      (acquire_for table flags sender start).0.locks
      (send_raw_transaction table flags node config options accounts 0 taken start).0.locks
      sender
      (codes "k1")
unfolding acquire_for
send_raw_transaction-IsReleased_example =
    send_raw_transaction-IsReleased table flags node config options accounts 0 taken start tx
      (codes "k1") refl refl refl

submit_transaction-error_example :
    ((submit_transaction taken 7).tx_submitted ≡ true)
    × (is_transaction_id (submit_transaction taken 7).submitted_transaction_id ≡ true)
    × (text_eq (submit_transaction taken 7).submitted_transaction_id [] ≡ false)
unfolding submit_transaction submit_at submission_of after_submit is_transaction_id id_at_front
    after_digit_dot after_digits after_char
submit_transaction-error_example = submit_transaction-error taken 7 refl

abbrev done : Submission
done = record {
  tx_submitted = true;
  submitted_transaction_id = codes "0.0.2@17.5";
  error = none;
  deleted = none;
}

answer_submission-hash_example :
    (taken.contract_result (format_transaction_id_without_query_params (codes "0.0.2@17.5"))
      ≡ ok (some (some (codes "0xee"))))
    ⊎ ((◌≡◌ {A = Bool} true true) × (codes "0xee" ≡ codes "0xc0"))
unfolding answer_submission retrieve_hash text_eq
answer_submission-hash_example = answer_submission-hash taken 3 done (codes "0xee") refl

send_raw_transaction_error_handler-nonce_example :
    (n : ℕ) × IsAnswered (refused 9) 3 0 5 n
    × (((0 < n) × (n < 3) × (nonce_too_low 3 9 ≡ nonce_too_high 3 n))
        ⊎ ((3 < n) × (nonce_too_low 3 9 ≡ nonce_too_low 3 n)))
unfolding send_raw_transaction_error_handler poll_account_nonce poll_step nonce_error
send_raw_transaction_error_handler-nonce_example =
    send_raw_transaction_error_handler-nonce (refused 9) 3 false wrong_nonce (nonce_too_low 3 9)
      refl refl
