-- ===== src/Precheck/Sound.antt =====
-- The checks against what a transaction has to satisfy.
use mpcq_json_rpc_relay.Prelude.{
  ℕ, ◌+◌, ◌*◌, ◌≤◌, ◌≡◌, ◌≢◌, ◌↔◌, ◌⊎◌, inl, inr, refl, true, false, Option, none, some, [], ◌∷◌,
  Text, length, arith, text_eq_iff,
}
use mpcq_json_rpc_relay.Prelude.Int.{pos, ◌+ℤ◌, ◌≤ℤ◌}
use mpcq_json_rpc_relay.Prelude.Results.{ok, >>-eq-ok, >>=-eq-ok}
use mpcq_json_rpc_relay.Formatters.Hex.{to_hex}
use mpcq_json_rpc_relay.Formatters.Prefix.{prepend_0x}
use mpcq_json_rpc_relay.Formatters.Amounts.{tinybar_to_weibar_coef}
use mpcq_json_rpc_relay.Precheck.Gas.{
  Transaction, without_0x, transaction_intrinsic_gas_cost, tx_gas_price,
}
use mpcq_json_rpc_relay.Precheck.Checks
use mpcq_json_rpc_relay.Precheck.Checks.{
  Options, JsNumber, undefined, null, nan, number, Account, Reply, found, missing, failed,
  is_legacy_unprotected_etx, is_deterministic_deployment_transaction, is_subsidized_transaction,
  send_raw_transaction_check, verify_account, plus_pending,
}

-- The gas price that the sender offers is enough, within the buffer, or need not be.
abbrev pub PriceAccepted : Options → Transaction → ℕ → Type 0
PriceAccepted o tx network =
    (p : ℕ) × (tx_gas_price tx ≡ ok p)
    × ((network ≤ p + o.gas_price_tiny_bar_buffer)
        ⊎ (is_deterministic_deployment_transaction o tx ≡ true)
        ⊎ (is_subsidized_transaction o tx.to ≡ true))

-- The next nonce of the account is not past that of the transaction. An undefined nonce is
-- compared as `NaN`, which never is.
abbrev pub NonceAccepted : Transaction → JsNumber → ℕ → Type 0
NonceAccepted tx (number n) pending = n + pending ≤ tx.nonce
NonceAccepted tx null pending = pending ≤ tx.nonce
NonceAccepted tx undefined pending = Unit
NonceAccepted tx nan pending = Unit

-- The account can pay the value and all of the gas.
abbrev pub CanPay : Transaction → Option ℕ → Type 0
CanPay tx balance =
    (b : ℕ) × (p : ℕ) × (balance ≡ some b)
    × (tx_gas_price tx ≡ ok p)
    × (tx.value +ℤ pos (p * tx.gas_limit) ≤ℤ pos (b * tinybar_to_weibar_coef))

-- No receiver, or none that the mirror node knows, or one that need not sign.
abbrev pub ReceiverAccepted : (Text → Reply) → Option Text → Type 0
ReceiverAccepted get_account none = Unit
ReceiverAccepted get_account (some []) = Unit
ReceiverAccepted get_account (some (c ∷ s)) =
    (get_account (c ∷ s) ≡ missing)
    ⊎ ((a : Account) × (get_account (c ∷ s) ≡ found a) × (a.receiver_sig_required ≡ false))

module _ (o : Options) (chain : Text) (get_account : Text → Reply) (get_pending_count : Text → ℕ)
    (tx : Transaction) (from : Text) (network : ℕ) where
  pub record Acceptable : Type 0 where
    pub data_fits : length (without_0x tx.input) ≤ 2 * o.call_data_size_limit
    pub size_fits : length (without_0x tx.serialized) ≤ 2 * o.send_raw_transaction_size_limit
    pub no_blob : tx.type ≢ some 3
    pub gas_low : transaction_intrinsic_gas_cost tx.input ≤ tx.gas_limit
    pub gas_high : tx.gas_limit ≤ o.max_transaction_fee_threshold
    pub same_chain :
        (is_legacy_unprotected_etx tx ≡ true) ⊎ (prepend_0x (to_hex tx.chain_id) ≡ chain)
    pub value_range : (tx.value ≡ pos 0) ⊎ (pos tinybar_to_weibar_coef ≤ℤ tx.value)
    pub price : PriceAccepted o tx network
    pub account : Account
    pub known : get_account from ≡ found account
    pub next_nonce : NonceAccepted tx account.ethereum_nonce (get_pending_count from)
    pub funds : CanPay tx account.balance
    pub no_access_list : tx.access_list ≡ []
    pub receiver : ReceiverAccepted get_account tx.to

module _ (o : Options) (tx : Transaction) where
  data_fits_iff :
      (Checks.call_data_size o tx ≡ ok tt)
      ↔ (length (without_0x tx.input) ≤ 2 * o.call_data_size_limit)
  unfolding Checks.call_data_size
  data_fits_iff = ground arith

  size_fits_iff :
      (Checks.transaction_size o tx ≡ ok tt)
      ↔ (length (without_0x tx.serialized) ≤ 2 * o.send_raw_transaction_size_limit)
  unfolding Checks.transaction_size
  size_fits_iff = ground arith

  no_blob_iff : (Checks.transaction_type tx ≡ ok tt) ↔ (tx.type ≢ some 3)
  unfolding Checks.transaction_type
  no_blob_iff = ground arith

  gas_iff : (Checks.gas_limit o tx ≡ ok tt) ↔ (
      (transaction_intrinsic_gas_cost tx.input ≤ tx.gas_limit)
      × (tx.gas_limit ≤ o.max_transaction_fee_threshold))
  unfolding Checks.gas_limit
  gas_iff = ground arith

  chain_iff :
      (chain : Text)
      → (Checks.chain_id chain tx ≡ ok tt)
        ↔ ((is_legacy_unprotected_etx tx ≡ true) ⊎ (prepend_0x (to_hex tx.chain_id) ≡ chain))
  unfolding Checks.chain_id
  chain_iff chain = ground (arith, text_eq_iff (prepend_0x (to_hex tx.chain_id)) chain)

  value_iff :
      (Checks.value tx ≡ ok tt) ↔ ((tx.value ≡ pos 0) ⊎ (pos tinybar_to_weibar_coef ≤ℤ tx.value))
  unfolding Checks.value
  value_iff = ground arith

  price_iff : (network : ℕ) → (Checks.gas_price o tx network ≡ ok tt) ↔ PriceAccepted o tx network
  unfolding Checks.gas_price
  price_iff network = (
    λ h. let (p, e, r) = >>=-eq-ok (tx_gas_price tx) _ h in (p, e, ground arith),
    λ v. ground arith,
  )

  nonce_iff :
      (n : JsNumber) (pending : ℕ)
      → (Checks.nonce tx (plus_pending n pending) ≡ ok tt) ↔ NonceAccepted tx n pending
  unfolding Checks.nonce plus_pending
  nonce_iff undefined pending = (λ h. tt, λ v. refl)
  nonce_iff null pending = ground arith
  nonce_iff nan pending = (λ h. tt, λ v. refl)
  nonce_iff (number n) pending = ground arith

  funds_iff : (b : Option ℕ) → (Checks.balance tx b ≡ ok tt) ↔ CanPay tx b
  unfolding Checks.balance
  funds_iff none = (λ h. cc, λ v. cc (v.2))
  funds_iff (some b) = (
    λ h. let (p, e, r) = >>=-eq-ok (tx_gas_price tx) _ h in (b, p, refl, e, ground arith),
    λ v. ground arith,
  )

  access_iff : (Checks.access_list tx ≡ ok tt) ↔ (tx.access_list ≡ [])
  unfolding Checks.access_list
  access_iff = (λ h. ground arith, λ v. ground arith)

  receiver_at :
      (get_account : Text → Reply) (c : ℕ) (s : Text)
      → tx.to ≡ some (c ∷ s)
      → (r : Reply) → get_account (c ∷ s) ≡ r
      → (Checks.receiver_account get_account tx ≡ ok tt)
        ↔ ReceiverAccepted get_account (some (c ∷ s))
  unfolding Checks.receiver_account
  receiver_at get_account c s e (found a) g = (λ h. inr (a, g, ground arith), λ v. ground arith)
  receiver_at get_account c s e missing g = (λ h. inl g, λ v. ground arith)
  receiver_at get_account c s e failed g = (λ h. ground arith, λ v. ground arith)

  receiver_iff :
      (get_account : Text → Reply) (to : Option Text)
      → tx.to ≡ to
      → (Checks.receiver_account get_account tx ≡ ok tt) ↔ ReceiverAccepted get_account to
  unfolding Checks.receiver_account
  receiver_iff get_account none e = ground arith
  receiver_iff get_account (some []) e = ground arith
  receiver_iff get_account (some (c ∷ s)) e =
      receiver_at get_account c s e (get_account (c ∷ s)) refl

module _ (o : Options) (chain : Text) (get_account : Text → Reply) (get_pending_count : Text → ℕ)
    (tx : Transaction) (from : Text) (network : ℕ) where
  verify_account-found :
      (a : Account) → get_account from ≡ found a → verify_account get_account from ≡ ok a
  unfolding verify_account
  verify_account-found a e = ground arith

  found-verify_account :
      (a : Account) → verify_account get_account from ≡ ok a → get_account from ≡ found a
  unfolding verify_account
  found-verify_account a h = ground arith

  accepted :
      send_raw_transaction_check o chain get_account get_pending_count tx from network ≡ ok tt
      → Acceptable o chain get_account get_pending_count tx from network
  unfolding send_raw_transaction_check
  accepted h =
      let (h₁, r₁) = >>-eq-ok (Checks.call_data_size o tx) _ h in
      let (h₂, r₂) = >>-eq-ok (Checks.transaction_size o tx) _ r₁ in
      let (h₃, r₃) = >>-eq-ok (Checks.transaction_type tx) _ r₂ in
      let (h₄, r₄) = >>-eq-ok (Checks.gas_limit o tx) _ r₃ in
      let (h₅, r₅) = >>-eq-ok (Checks.chain_id chain tx) _ r₄ in
      let (h₆, r₆) = >>-eq-ok (Checks.value tx) _ r₅ in
      let (h₇, r₇) = >>-eq-ok (Checks.gas_price o tx network) _ r₆ in
      let (a, h₈, r₈) = >>=-eq-ok (verify_account get_account from) _ r₇ in
      let (h₉, r₉) =
        >>-eq-ok (Checks.nonce tx (plus_pending a.ethereum_nonce (get_pending_count from))) _ r₈ in
      let (h₁₀, r₁₀) = >>-eq-ok (Checks.balance tx a.balance) _ r₉ in
      let (h₁₁, r₁₁) = >>-eq-ok (Checks.access_list tx) _ r₁₀ in
      let gas = (gas_iff o tx).0 h₄ in
      record {
        data_fits = (data_fits_iff o tx).0 h₁;
        size_fits = (size_fits_iff o tx).0 h₂;
        no_blob = (no_blob_iff o tx).0 h₃;
        gas_low = gas.0;
        gas_high = gas.1;
        same_chain = (chain_iff o tx chain).0 h₅;
        value_range = (value_iff o tx).0 h₆;
        price = (price_iff o tx network).0 h₇;
        account = a;
        known = found-verify_account a h₈;
        next_nonce = (nonce_iff o tx a.ethereum_nonce (get_pending_count from)).0 h₉;
        funds = (funds_iff o tx a.balance).0 h₁₀;
        no_access_list = (access_iff o tx).0 h₁₁;
        receiver = (receiver_iff o tx get_account tx.to refl).0 r₁₁;
      }

  acceptable :
      Acceptable o chain get_account get_pending_count tx from network
      → send_raw_transaction_check o chain get_account get_pending_count tx from network ≡ ok tt
  unfolding send_raw_transaction_check
  acceptable v =
      rw
        (
          (data_fits_iff o tx).1 v.data_fits,
          (size_fits_iff o tx).1 v.size_fits,
          (no_blob_iff o tx).1 v.no_blob,
          (gas_iff o tx).1 (v.gas_low, v.gas_high),
          (chain_iff o tx chain).1 v.same_chain,
          (value_iff o tx).1 v.value_range,
          (price_iff o tx network).1 v.price,
          verify_account-found v.account v.known,
          (nonce_iff o tx v.account.ethereum_nonce (get_pending_count from)).1 v.next_nonce,
          (funds_iff o tx v.account.balance).1 v.funds,
          (access_iff o tx).1 v.no_access_list,
        )
        ((receiver_iff o tx get_account tx.to refl).1 v.receiver)

  -- The checks accept exactly the transactions that satisfy every condition of `Acceptable`.
  pub send_raw_transaction_check_iff :
      (send_raw_transaction_check o chain get_account get_pending_count tx from network ≡ ok tt)
      ↔ Acceptable o chain get_account get_pending_count tx from network
  send_raw_transaction_check_iff = (accepted, acceptable)
