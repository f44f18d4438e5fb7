-- ===== src/TxPool/Api.antt =====
-- packages/relay/src/lib/txpool.ts: the methods txpool_content, txpool_contentFrom and txpool_status.
-- `ethers.Transaction.from` is the parameter `decode`. An object is a list of keys and values that
-- are read by key; its order is not modelled.
use mpcq_json_rpc_relay.Prelude.{
  ℕ, zero, suc, Bool, true, false, Option, none, some, List, [], ◌∷◌, ◌++◌, Text, codes, lookup,
  insert, length, if◌then◌else◌, ◌==◌, ◌&&◌, not, map,
}
use mpcq_json_rpc_relay.Prelude.Results.{Result, ok, err}
use mpcq_json_rpc_relay.Formatters.Hex.{number_to_0x, parse_hex}
use mpcq_json_rpc_relay.TxPool.{
  LocalPendingTransactionStorage, get_transactions, get_all_transactions,
}

-- What the methods read of an `ethers.Transaction`.
pub record Transaction : Type 0 where
  pub from : Text
  pub gas_limit : ℕ
  pub hash : Text
  pub call_data : Text
  pub nonce : ℕ
  pub to : Option Text
  pub value : ℕ
  pub type : Option ℕ
  pub v : Option ℕ
  pub r : Option Text
  pub s : Option Text
  pub chain_id : ℕ
  pub gas_price : Option ℕ
  pub max_fee_per_gas : Option ℕ
  pub max_priority_fee_per_gas : Option ℕ

-- `TxPoolTransaction`; the block's number and the index are always null.
pub record TxPoolTransaction : Type 0 where
  pub block_hash : Text
  pub from : Text
  pub gas : Text
  pub hash : Text
  pub input : Text
  pub nonce : Text
  pub to : Option Text
  pub value : Text
  pub type : Text
  pub v : Option Text
  pub r : Option Text
  pub s : Option Text
  pub chain_id : Option Text
  pub gas_price : Option Text
  pub max_fee_per_gas : Option Text
  pub max_priority_fee_per_gas : Option Text

abbrev zero_digits : ℕ → Text
zero_digits zero = []
zero_digits (suc n) = b'0' ∷ zero_digits n

-- `ZERO_HEX_32_BYTE`.
abbrev pub zero_hex_32_byte : Text
zero_hex_32_byte = codes "0x" ++ zero_digits 64

abbrev or_zero : Option ℕ → ℕ
or_zero none = 0
or_zero (some n) = n

-- A field that is given only when its number is there and not 0.
unfoldable pub if_truthy : Option ℕ → Option Text
unfolding number_to_0x
if_truthy none = none
if_truthy (some n) = if n == 0 then none else some (number_to_0x n)

unfoldable pub convert_rlp_encoded_tx : Transaction → TxPoolTransaction
unfolding number_to_0x if_truthy
convert_rlp_encoded_tx tx = record {
  block_hash = zero_hex_32_byte;
  from = tx.from;
  gas = number_to_0x tx.gas_limit;
  hash = tx.hash;
  input = tx.call_data;
  nonce = number_to_0x tx.nonce;
  to = tx.to;
  value = number_to_0x tx.value;
  type = number_to_0x (or_zero tx.type);
  v = if_truthy tx.v;
  r = tx.r;
  s = tx.s;
  chain_id = if_truthy (some tx.chain_id);
  gas_price = if_truthy tx.gas_price;
  max_fee_per_gas = if_truthy tx.max_fee_per_gas;
  max_priority_fee_per_gas = if_truthy tx.max_priority_fee_per_gas;
}

-- `Number(s)` of a text that starts with 0x; `none` is `NaN`.
unfoldable pub number_of : Text → Option ℕ
unfolding parse_hex
number_of (a ∷ b ∷ s) = parse_hex s
number_of _ = none

abbrev same_number : Option ℕ → Option ℕ → Bool
same_number none none = true
same_number (some n) (some m) = n == m
same_number _ _ = false

abbrev pub ByNonce : Type 0
ByNonce = List (Option ℕ × TxPoolTransaction)

unfoldable pub at_nonce : Option ℕ → ByNonce → Option TxPoolTransaction
at_nonce n [] = none
at_nonce n ((m, t) ∷ xs) = if same_number m n then some t else at_nonce n xs

unfoldable pub set_nonce : Option ℕ → TxPoolTransaction → ByNonce → ByNonce
set_nonce n t [] = (n, t) ∷ []
set_nonce n t ((m, u) ∷ xs) = if same_number m n then (m, t) ∷ xs else (m, u) ∷ set_nonce n t xs

-- The body of the `reduce` in `groupByNonce`.
unfoldable pub add_by_nonce : ByNonce → TxPoolTransaction → ByNonce
unfolding number_of set_nonce
add_by_nonce acc item = set_nonce (number_of item.nonce) item acc

-- The body of the `reduce` in `groupByAddressAndNonce`.
unfoldable pub add_by_address_and_nonce :
    List (Text × ByNonce) → TxPoolTransaction → List (Text × ByNonce)
unfolding add_by_nonce
add_by_address_and_nonce acc item = elim (lookup item.from acc) [
  | none ↦ insert item.from (add_by_nonce [] item) acc
  | some by_nonce ↦ insert item.from (add_by_nonce by_nonce item) acc
]

-- `Array.prototype.reduce`.
unfoldable pub reduce {ℓ κ} : {A : Type ℓ} {B : Type κ} → (B → A → B) → B → List A → B
reduce f acc [] = acc
reduce f acc (x ∷ xs) = reduce f (f acc x) xs

unfoldable pub group_by_nonce : List TxPoolTransaction → ByNonce
unfolding reduce add_by_nonce
group_by_nonce txs = reduce add_by_nonce [] txs

unfoldable pub group_by_address_and_nonce : List TxPoolTransaction → List (Text × ByNonce)
unfolding reduce add_by_address_and_nonce
group_by_address_and_nonce txs = reduce add_by_address_and_nonce [] txs

-- `predefined.UNSUPPORTED_METHOD`.
pub data ApiError : Type 0 where
  unsupported_method : ApiError

-- `requireTxPoolAPIEnabled`, with the options TXPOOL_API_ENABLED and ENABLE_TX_POOL.
unfoldable pub require_tx_pool_api_enabled {ℓ} : {A : Type ℓ} → Bool → Bool → A → Result ApiError A
require_tx_pool_api_enabled api pool answer =
    if not (api && pool) then err unsupported_method else ok answer

module _ (decode : Text → Transaction) where
  unfoldable pub convert_rlp_encoded_tx_to_transaction_pool_tx : List Text → List TxPoolTransaction
  unfolding convert_rlp_encoded_tx
  convert_rlp_encoded_tx_to_transaction_pool_tx rlp_txs =
      map (λ rlp. convert_rlp_encoded_tx (decode rlp)) rlp_txs

  unfoldable pub content :
      Bool → Bool → LocalPendingTransactionStorage → Result ApiError (List (Text × ByNonce))
  unfolding require_tx_pool_api_enabled group_by_address_and_nonce
      convert_rlp_encoded_tx_to_transaction_pool_tx
  content api pool s = require_tx_pool_api_enabled api pool (
      group_by_address_and_nonce
        (convert_rlp_encoded_tx_to_transaction_pool_tx (get_all_transactions s)))

  unfoldable pub content_from :
      Bool → Bool → LocalPendingTransactionStorage → Text → Result ApiError ByNonce
  unfolding require_tx_pool_api_enabled group_by_nonce convert_rlp_encoded_tx_to_transaction_pool_tx
  content_from api pool s address =
      require_tx_pool_api_enabled api pool (
        group_by_nonce (convert_rlp_encoded_tx_to_transaction_pool_tx (get_transactions s address)))

  unfoldable pub status : Bool → Bool → LocalPendingTransactionStorage → Result ApiError Text
  unfolding require_tx_pool_api_enabled number_to_0x
  status api pool s =
      require_tx_pool_api_enabled api pool (number_to_0x (length (get_all_transactions s)))
