-- ===== src/Precheck/Examples.antt =====
-- A transfer that passes every check, and the theorems at it.
use mpcq_json_rpc_relay.Prelude.{
  ℕ, ◌≡◌, ◌↔◌, refl, false, none, some, [], ◌∷◌, Text, codes, text_eq, starts_with, to_lower_case,
}
use mpcq_json_rpc_relay.Prelude.Int.{pos, ◌+ℤ◌}
use mpcq_json_rpc_relay.Prelude.Results.{ok, err}
use mpcq_json_rpc_relay.Prelude.Sets.{has}
use mpcq_json_rpc_relay.Formatters.Hex.{to_hex}
use mpcq_json_rpc_relay.Formatters.Prefix.{prepend_0x}
use mpcq_json_rpc_relay.Precheck.Gas.{
  Transaction, PrecheckError, without_0x, count_bytes, transaction_intrinsic_gas_cost, tx_gas_price,
}
use mpcq_json_rpc_relay.Precheck.Checks
use mpcq_json_rpc_relay.Precheck.Checks.{
  Options, JsNumber, undefined, number, Account, Reply, found, missing, send_raw_transaction_check,
  plus_pending,
}
use mpcq_json_rpc_relay.Precheck.Sound.{Acceptable, send_raw_transaction_check_iff}

program : Unit {0}
unfolding Checks.call_data_size Checks.transaction_size Checks.transaction_type Checks.gas_limit
    Checks.chain_id Checks.value Checks.gas_price Checks.verify_account Checks.nonce Checks.balance
    Checks.access_list Checks.receiver_account Checks.send_raw_transaction_check plus_pending
    Checks.is_deterministic_deployment_transaction Checks.is_subsidized_transaction has text_eq
    to_lower_case starts_with prepend_0x to_hex without_0x count_bytes
    transaction_intrinsic_gas_cost tx_gas_price ◌+ℤ◌
program = tt

abbrev options : Options
options = record {
  max_transaction_fee_threshold = 15_000_000;
  send_raw_transaction_size_limit = 133_120;
  call_data_size_limit = 131_072;
  gas_price_tiny_bar_buffer = 10_000_000_000;
  paymaster_enabled = false;
  paymaster_whitelist = [];
  deterministic_deployer_transaction = codes "0xf8a5";
}

abbrev sender : Text
sender = codes "0xaa"

abbrev transfer : Transaction
transfer = record {
  type = some 2;
  from = some sender;
  to = some (codes "0xbb");
  nonce = 7;
  gas_limit = 30_000;
  gas_price = none;
  max_fee_per_gas = some 800_000_000_000;
  max_priority_fee_per_gas = some 0;
  value = pos 10_000_000_000;
  chain_id = 298;
  signature_v = some 0;
  input = codes "0x00ff";
  access_list = [];
  serialized = codes "0x02f8";
}

abbrev funded : Account
funded = record {
  ethereum_nonce = number 5;
  balance = some 10_000_000_000;
  receiver_sig_required = false;
}

abbrev get_account : Text → Reply
get_account (c ∷ d ∷ x ∷ y ∷ []) = found funded
get_account _ = missing

abbrev get_pending_count : Text → ℕ
get_pending_count _ = 2

transfer_accepted :
    send_raw_transaction_check options
      (codes "0x12a")
      get_account
      get_pending_count
      transfer
      sender
      710_000_000_000
    ≡ ok tt
unfolding program
transfer_accepted = refl

third_pending_refused :
    send_raw_transaction_check options
      (codes "0x12a")
      get_account
      (λ _. 3)
      transfer
      sender
      710_000_000_000
    ≡ err PrecheckError.nonce_too_low
unfolding program
third_pending_refused = refl

send_raw_transaction_check_iff_example :
    (send_raw_transaction_check options
        (codes "0x12a")
        get_account
        get_pending_count
        transfer
        sender
        710_000_000_000
      ≡ ok tt)
    ↔ Acceptable options
        (codes "0x12a")
        get_account
        get_pending_count
        transfer
        sender
        710_000_000_000
send_raw_transaction_check_iff_example =
    send_raw_transaction_check_iff options (codes "0x12a") get_account get_pending_count transfer
      sender 710_000_000_000

abbrev no_nonce : Account
no_nonce = record funded { ethereum_nonce = undefined }
