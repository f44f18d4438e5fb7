-- ===== src/Precheck/Gas.antt =====
-- The transaction, and what the checks compute from it: sizes, intrinsic gas and gas price.
use mpcq_json_rpc_relay.Prelude.{
  ℕ, zero, suc, ◌+◌, ◌*◌, ◌≡◌, Option, none, some, List, [], ◌∷◌, ◌++◌, Text, codes, ◌==◌, ◌&&◌,
  if◌then◌else◌, arith,
}
use mpcq_json_rpc_relay.Prelude.Int.{ℤ}
use mpcq_json_rpc_relay.Prelude.Results.{Result, ok, err}

-- The fields of an ethers `Transaction` that the relay reads. A missing `from` or `to` is `none`.
pub record Transaction : Type 0 where
  pub type : Option ℕ
  pub from : Option Text
  pub to : Option Text
  pub nonce : ℕ
  pub gas_limit : ℕ
  pub gas_price : Option ℕ
  pub max_fee_per_gas : Option ℕ
  pub max_priority_fee_per_gas : Option ℕ
  pub value : ℤ
  pub chain_id : ℕ
  pub signature_v : Option ℕ
  pub input : Text
  pub access_list : List Text
  pub serialized : Text

-- The errors that a check throws: those of errors/JsonRpcError.ts, a failed request to the mirror
-- node, and the TypeError of adding a bigint to null.
pub data PrecheckError : Type 0 where
  call_data_size_limit_exceeded transaction_size_limit_exceeded : PrecheckError
  unsupported_transaction_type_3 unsupported_chain_id value_too_low gas_price_too_low :
      PrecheckError
  gas_limit_too_high gas_limit_too_low resource_not_found nonce_too_low : PrecheckError
  insufficient_account_balance not_yet_implemented receiver_signature_enabled : PrecheckError
  mirror_node_failure type_error : PrecheckError

-- `s.replace('0x', '')`: without the first occurrence.
unfoldable pub without_0x : Text → Text
without_0x [] = []
without_0x (a ∷ []) = a ∷ []
without_0x (a ∷ b ∷ s) =
    let rest = a ∷ without_0x (b ∷ s) in if (a == b'0') && (b == b'x') then s else rest

abbrev pub tx_base_cost : ℕ
tx_base_cost = 21000

abbrev pub tx_data_zero_cost : ℕ
tx_data_zero_cost = 4

abbrev pub istanbul_tx_data_non_zero_cost : ℕ
istanbul_tx_data_non_zero_cost = 16

-- The loop of `transactionIntrinsicGasCost`, over two digits at a time. A last single digit is
-- joined to `undefined`, and so is not `00`.
unfoldable pub count_bytes : Text → ℕ → ℕ → ℕ × ℕ
count_bytes [] zeros non_zeros = (zeros, non_zeros)
count_bytes (a ∷ []) zeros non_zeros = (zeros, non_zeros + 1)
count_bytes (a ∷ b ∷ s) zeros non_zeros =
    let is_zero = (a == b'0') && (b == b'0') in
    count_bytes s (if is_zero then zeros + 1 else zeros)
      (if is_zero then non_zeros else non_zeros + 1)

unfoldable pub transaction_intrinsic_gas_cost : Text → ℕ
unfolding without_0x count_bytes
transaction_intrinsic_gas_cost input =
    let (zeros, non_zeros) = count_bytes (without_0x input) 0 0 in
    tx_base_cost + tx_data_zero_cost * zeros + istanbul_tx_data_non_zero_cost * non_zeros

-- `tx.maxFeePerGas! + tx.maxPriorityFeePerGas!`; null + null is 0.
unfoldable pub sum_of_fees : Option ℕ → Option ℕ → Result PrecheckError ℕ
sum_of_fees none none = ok 0
sum_of_fees none (some p) = err type_error
sum_of_fees (some m) none = err type_error
sum_of_fees (some m) (some p) = ok (m + p)

-- `tx.gasPrice || tx.maxFeePerGas! + tx.maxPriorityFeePerGas!`.
unfoldable pub tx_gas_price : Transaction → Result PrecheckError ℕ
unfolding sum_of_fees
tx_gas_price tx = elim tx.gas_price [
  | none ↦ sum_of_fees tx.max_fee_per_gas tx.max_priority_fee_per_gas
  | some zero ↦ sum_of_fees tx.max_fee_per_gas tx.max_priority_fee_per_gas
  | some (suc p) ↦ ok (suc p)
]

-- Two digits for each byte of a call.
abbrev pub bytes_digits : List (ℕ × ℕ) → Text
bytes_digits [] = []
bytes_digits ((a, b) ∷ bs) = a ∷ b ∷ bytes_digits bs

-- The price of a byte in gas, and that of all.
abbrev pub data_cost : List (ℕ × ℕ) → ℕ
data_cost [] = 0
data_cost ((a, b) ∷ bs) = (if (a == b'0') && (b == b'0') then 4 else 16) + data_cost bs

count_bytes-sum :
    (bs : List (ℕ × ℕ)) (z n : ℕ)
    → let r = count_bytes (bytes_digits bs) z n in
      4 * r.0 + 16 * r.1 ≡ 4 * z + 16 * n + data_cost bs
unfolding count_bytes
count_bytes-sum [] z n = omega arith
count_bytes-sum ((a, b) ∷ bs) z n =
    let is_zero = (a == b'0') && (b == b'0') in
    ground (arith, count_bytes-sum bs (if is_zero then z + 1 else z) (if is_zero then n else n + 1))

-- The intrinsic gas of call data `0x` with its bytes: 21000, 4 for a zero byte and 16 for another.
pub transaction_intrinsic_gas_cost_lem :
    (bs : List (ℕ × ℕ))
    → transaction_intrinsic_gas_cost (codes "0x" ++ bytes_digits bs) ≡ 21000 + data_cost bs
unfolding transaction_intrinsic_gas_cost without_0x
transaction_intrinsic_gas_cost_lem bs = omega (arith, count_bytes-sum bs 0 0)
