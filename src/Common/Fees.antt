-- ===== src/Common/Fees.antt =====
-- CommonService.ts: gas prices and addresses; utils.ts: the buffer on the price.
use mpcq_json_rpc_relay.Prelude.{
  ℕ, ◌+◌, ◌*◌, ◌/◌, Option, none, some, List, [], ◌∷◌, Text, codes, text_eq, if◌then◌else◌, ◌==◌,
}
use mpcq_json_rpc_relay.Prelude.Results.{Result, ok, err, ◌>>=◌}
use mpcq_json_rpc_relay.Formatters.Hex.{number_to_0x}
use mpcq_json_rpc_relay.Formatters.Amounts.{tinybar_to_weibar_coef}
use mpcq_json_rpc_relay.Common.{
  internal_error, Thrown, json_rpc, by_hash, NetworkFee, Entity, contract, account, MirrorNode,
  Config, generic_error_handler,
}
use mpcq_json_rpc_relay.Common.Ranges.{before_dot}

-- `fees.find(...)` and the price of what it finds.
unfoldable pub ethereum_gas : List NetworkFee → Option ℕ
unfolding text_eq
ethereum_gas [] = none
ethereum_gas (fee ∷ fees) =
    let rest = ethereum_gas fees in
    if text_eq fee.transaction_type (codes "EthereumTransaction") then some fee.gas else rest

abbrev no_price : Thrown
no_price = json_rpc (internal_error (codes "Failed to retrieve gas price from network fees"))

-- The price in weibars; a missing price and 0 are falsy.
unfoldable pub price_of_fees : Option (List NetworkFee) → Result Thrown ℕ
unfolding ethereum_gas
price_of_fees none = err no_price
price_of_fees (some fees) = elim (ethereum_gas fees) [
  | none ↦ err no_price
  | some gas ↦ if gas == 0 then err no_price else ok (gas * tinybar_to_weibar_coef)
]

-- `addPercentageBufferToGasPrice` on a whole number of tinybars in weibars and a whole percentage:
-- `Math.round` takes a half up.
unfoldable pub add_percentage_buffer_to_gas_price : Config → ℕ → ℕ
add_percentage_buffer_to_gas_price C gas_price =
    gas_price
    + (gas_price / tinybar_to_weibar_coef * C.gas_price_percentage_buffer + 50)
      / 100
      * tinybar_to_weibar_coef

module _ (M : MirrorNode) (C : Config) where
  unfoldable pub get_gas_price_in_weibars : ℕ → Option Text → Result Thrown ℕ
  unfolding price_of_fees
  get_gas_price_in_weibars t timestamp = do
    network_fees ← M.get_network_fees t timestamp
    price_of_fees network_fees

  -- The buffered price, or an error as `genericErrorHandler` throws it on.
  unfoldable pub gas_price : ℕ → Result Thrown Text
  unfolding get_gas_price_in_weibars add_percentage_buffer_to_gas_price number_to_0x
      generic_error_handler
  gas_price t = elim (get_gas_price_in_weibars t none) [
    | ok price ↦ ok (number_to_0x (add_percentage_buffer_to_gas_price C price))
    | err e ↦ err (generic_error_handler e)
  ]

  -- The requests `t` and `t + 1`. Of a missing block the timestamp is the empty string.
  unfoldable pub get_current_gas_price_for_block : ℕ → Text → Result Thrown Text
  unfolding get_gas_price_in_weibars before_dot number_to_0x
  get_current_gas_price_for_block t block_hash = do
    block ← M.get_block t (by_hash block_hash)
    price ←
        get_gas_price_in_weibars (t + 1)
          (some (elim block [ none ↦ [] | some b ↦ before_dot b.timestamp_from ]))
    ok (number_to_0x price)

  -- The address of an entity that is a contract or an account and has one that is not empty, or
  -- else the address itself.
  unfoldable pub evm_address_of : Option Entity → Text → Text
  evm_address_of (some (contract (some (c ∷ s)))) address = c ∷ s
  evm_address_of (some (account (some (c ∷ s)))) address = c ∷ s
  evm_address_of _ address = address

  unfoldable pub resolve_evm_address : ℕ → Text → Result Thrown Text
  unfolding evm_address_of
  resolve_evm_address t [] = ok []
  resolve_evm_address t (c ∷ s) = do
    entity ← M.resolve_entity_type t (c ∷ s)
    ok (evm_address_of entity (c ∷ s))
