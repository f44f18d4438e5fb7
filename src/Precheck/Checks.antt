-- ===== src/Precheck/Checks.antt =====
-- The checks of the class `Precheck`, each as the code makes it, and their sequence.
use mpcq_json_rpc_relay.Prelude.{
  ℕ, ◌+◌, ◌*◌, Bool, false, Option, none, some, List, [], ◌∷◌, Text, codes, length, ◌==◌, ◌&&◌,
  ◌||◌, not, if◌then◌else◌, leb, ltb, text_eq, to_lower_case, map,
}
use mpcq_json_rpc_relay.Prelude.Int.{pos, ◌+ℤ◌, ltb_ℤ}
use mpcq_json_rpc_relay.Prelude.Results.{Result, ok, err, ◌>>=◌, ◌>>◌, throw_if}
use mpcq_json_rpc_relay.Prelude.Sets.{has}
use mpcq_json_rpc_relay.Formatters.Hex.{to_hex}
use mpcq_json_rpc_relay.Formatters.Prefix.{prepend_0x}
use mpcq_json_rpc_relay.Formatters.Amounts.{tinybar_to_weibar_coef}
use mpcq_json_rpc_relay.Precheck.Gas.{
  Transaction, PrecheckError, without_0x, transaction_intrinsic_gas_cost, tx_gas_price,
}

-- The options that the checks read, and the raw text of the deterministic deployment.
pub record Options : Type 0 where
  pub max_transaction_fee_threshold : ℕ
  pub send_raw_transaction_size_limit : ℕ
  pub call_data_size_limit : ℕ
  pub gas_price_tiny_bar_buffer : ℕ
  pub paymaster_enabled : Bool
  pub paymaster_whitelist : List Text
  pub deterministic_deployer_transaction : Text

-- `ethereum_nonce` of an account, and what the code computes from it: `undefined` plus a number is
-- `NaN`, null plus a number is that number.
pub data JsNumber : Type 0 where
  undefined null nan : JsNumber
  number : ℕ → JsNumber

pub record Account : Type 0 where
  pub ethereum_nonce : JsNumber
  pub balance : Option ℕ
  pub receiver_sig_required : Bool

-- The mirror node's answer for an account. The client is outside of this part.
pub data Reply : Type 0 where
  found : Account → Reply
  missing failed : Reply

-- A length in digits is twice a length in bytes: `digits / 2 > limit`.
unfoldable pub call_data_size : Options → Transaction → Result PrecheckError (Unit {0})
call_data_size o tx =
    throw_if (ltb (2 * o.call_data_size_limit) (length (without_0x tx.input)))
      PrecheckError.call_data_size_limit_exceeded

unfoldable pub transaction_size : Options → Transaction → Result PrecheckError (Unit {0})
transaction_size o tx =
    throw_if (ltb (2 * o.send_raw_transaction_size_limit) (length (without_0x tx.serialized)))
      PrecheckError.transaction_size_limit_exceeded

unfoldable pub transaction_type : Transaction → Result PrecheckError (Unit {0})
transaction_type tx =
    throw_if (elim tx.type [ none ↦ false | some t ↦ t == 3 ])
      PrecheckError.unsupported_transaction_type_3

unfoldable pub gas_limit : Options → Transaction → Result PrecheckError (Unit {0})
gas_limit o tx =
    let intrinsic_gas_cost = transaction_intrinsic_gas_cost tx.input in
    if ltb o.max_transaction_fee_threshold tx.gas_limit
    then err PrecheckError.gas_limit_too_high
    else throw_if (ltb tx.gas_limit intrinsic_gas_cost) PrecheckError.gas_limit_too_low

unfoldable pub is_legacy_unprotected_etx : Transaction → Bool
is_legacy_unprotected_etx tx =
    (tx.chain_id == 0) && (elim tx.signature_v [ none ↦ false | some v ↦ v == 27 || v == 28 ])

unfoldable pub chain_id : Text → Transaction → Result PrecheckError (Unit {0})
unfolding is_legacy_unprotected_etx
chain_id chain tx =
    let tx_chain_id = prepend_0x (to_hex tx.chain_id) in
    let passes = is_legacy_unprotected_etx tx || text_eq tx_chain_id chain in
    throw_if (not passes) PrecheckError.unsupported_chain_id

unfoldable pub value : Transaction → Result PrecheckError (Unit {0})
value tx =
    throw_if
      ((ltb_ℤ (pos 0) tx.value && ltb_ℤ tx.value (pos tinybar_to_weibar_coef))
        || ltb_ℤ tx.value (pos 0))
      PrecheckError.value_too_low

unfoldable pub is_deterministic_deployment_transaction : Options → Transaction → Bool
is_deterministic_deployment_transaction o tx =
    text_eq tx.serialized o.deterministic_deployer_transaction

-- `CommonService.isSubsidizedTransaction`.
unfoldable pub is_subsidized_transaction : Options → Option Text → Bool
is_subsidized_transaction o to_address =
    let pay_master_white_list = map to_lower_case o.paymaster_whitelist in
    o.paymaster_enabled
    && (has (codes "*") pay_master_white_list || (elim to_address [
      | none ↦ false
      | some [] ↦ false
      | some (c ∷ s) ↦ has (prepend_0x (to_lower_case (c ∷ s))) pay_master_white_list
    ]))

unfoldable pub gas_price : Options → Transaction → ℕ → Result PrecheckError (Unit {0})
gas_price o tx network_gas_price = do
  price ← tx_gas_price tx
  let passes =
      leb network_gas_price price
      || is_deterministic_deployment_transaction o tx
      || is_subsidized_transaction o tx.to
  let within_buffer =
      not (o.gas_price_tiny_bar_buffer == 0)
      && leb network_gas_price (price + o.gas_price_tiny_bar_buffer)
  throw_if (not passes && not within_buffer) PrecheckError.gas_price_too_low

-- `tx.from!` and `tx.to` are texts here.
unfoldable pub verify_account : (Text → Reply) → Text → Result PrecheckError Account
verify_account get_account from = elim (get_account from) [
  | found a ↦ ok a
  | missing ↦ err PrecheckError.resource_not_found
  | failed ↦ err PrecheckError.mirror_node_failure
]

-- `ethereum_nonce + pending`.
unfoldable pub plus_pending : JsNumber → ℕ → JsNumber
plus_pending undefined pending = nan
plus_pending null pending = number pending
plus_pending nan pending = nan
plus_pending (number n) pending = number (n + pending)

-- `accountNonce == undefined` holds of null too, and no comparison with `NaN` holds.
unfoldable pub nonce : Transaction → JsNumber → Result PrecheckError (Unit {0})
nonce tx undefined = err PrecheckError.resource_not_found
nonce tx null = err PrecheckError.resource_not_found
nonce tx nan = ok tt
nonce tx (number account_nonce) = throw_if (ltb tx.nonce account_nonce) PrecheckError.nonce_too_low

unfoldable pub balance : Transaction → Option ℕ → Result PrecheckError (Unit {0})
balance tx none = err PrecheckError.resource_not_found
balance tx (some account_balance) = do
  price ← tx_gas_price tx
  let tx_total_value = tx.value +ℤ pos (price * tx.gas_limit)
  let account_balance_in_wei_bars = pos (account_balance * tinybar_to_weibar_coef)
  throw_if (ltb_ℤ account_balance_in_wei_bars tx_total_value)
      PrecheckError.insufficient_account_balance

unfoldable pub access_list : Transaction → Result PrecheckError (Unit {0})
access_list tx = throw_if (ltb 0 (length tx.access_list)) PrecheckError.not_yet_implemented

-- The empty text is no receiver.
unfoldable pub receiver_account : (Text → Reply) → Transaction → Result PrecheckError (Unit {0})
receiver_account get_account tx = elim tx.to [
  | none ↦ ok tt
  | some [] ↦ ok tt
  | some (c ∷ s) ↦ (elim (get_account (c ∷ s)) [
    | found a ↦ throw_if a.receiver_sig_required PrecheckError.receiver_signature_enabled
    | missing ↦ ok tt
    | failed ↦ err PrecheckError.mirror_node_failure
  ])
]

-- `sendRawTransactionCheck` for a sender `from`, with its number of pending transactions.
unfoldable pub send_raw_transaction_check :
    Options
    → Text
    → (Text → Reply)
    → (Text → ℕ)
    → Transaction
    → Text
    → ℕ
    → Result PrecheckError (Unit {0})
send_raw_transaction_check o chain get_account get_pending_count tx from network_gas_price = do
  call_data_size o tx
  transaction_size o tx
  transaction_type tx
  gas_limit o tx
  chain_id chain tx
  value tx
  gas_price o tx network_gas_price
  account ← verify_account get_account from
  nonce tx (plus_pending account.ethereum_nonce (get_pending_count from))
  balance tx account.balance
  access_list tx
  receiver_account get_account tx
