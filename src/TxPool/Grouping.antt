-- ===== src/TxPool/Grouping.antt =====
-- Which transaction the answers of txpool_content and txpool_contentFrom show for an address and a
-- nonce.
use mpcq_json_rpc_relay.Prelude.{
  ℕ, ◌≡◌, ◌∙◌, refl, Bool, true, false, Option, none, some, List, [], ◌∷◌, Text, lookup, insert,
  lookup-insert, if◌then◌else◌, arith, text_eq, text_eq_iff, ◌==◌, ◌&&◌, Bool-cases, Option-cases,
  inl, inr,
}
use mpcq_json_rpc_relay.Prelude.Results.{ok, err}
use mpcq_json_rpc_relay.Formatters.Hex.{number_to_0x, parse_hex-to_hex}
use mpcq_json_rpc_relay.TxPool.{
  LocalPendingTransactionStorage, get_transactions, get_all_transactions,
}
use mpcq_json_rpc_relay.TxPool.Api.{
  Transaction, TxPoolTransaction, convert_rlp_encoded_tx, number_of, ByNonce, at_nonce, set_nonce,
  add_by_nonce, add_by_address_and_nonce, reduce, group_by_nonce, group_by_address_and_nonce,
  unsupported_method, require_tx_pool_api_enabled, convert_rlp_encoded_tx_to_transaction_pool_tx,
  content, content_from,
}

at_nonce-set_nonce :
    (n m : ℕ) (t : TxPoolTransaction) (xs : ByNonce)
    → at_nonce (some m) (set_nonce (some n) t xs)
      ≡ (if n == m then some t else at_nonce (some m) xs)
unfolding at_nonce set_nonce
at_nonce-set_nonce n m t [] = ground arith
at_nonce-set_nonce n m t ((none, u) ∷ xs) = ground (arith, at_nonce-set_nonce n m t xs)
at_nonce-set_nonce n m t ((some k, u) ∷ xs) = ground (arith, at_nonce-set_nonce n m t xs)

number_of-number_to_0x : (n : ℕ) → number_of (number_to_0x n) ≡ some n
unfolding number_of number_to_0x
number_of-number_to_0x n = parse_hex-to_hex n

-- `o[address][nonce]`, where `o[address]` may be missing.
abbrev pub at_address_and_nonce : Text → ℕ → List (Text × ByNonce) → Option TxPoolTransaction
at_address_and_nonce a n o = elim (lookup a o) [
  | none ↦ none
  | some by_nonce ↦ at_nonce (some n) by_nonce
]

module _ (decode : Text → Transaction) where
  -- The last of the payloads that passes a test, as it is shown.
  unfoldable pub last_shown : (Transaction → Bool) → List Text → Option TxPoolTransaction
  unfolding convert_rlp_encoded_tx
  last_shown p [] = none
  last_shown p (x ∷ xs) = elim (last_shown p xs) [
    | some t ↦ some t
    | none ↦ if p (decode x) then some (convert_rlp_encoded_tx (decode x)) else none
  ]

  abbrev or_before : Option TxPoolTransaction → Option TxPoolTransaction → Option TxPoolTransaction
  or_before (some t) before = some t
  or_before none before = before

  group_by_nonce_step :
      (xs : List Text) (n : ℕ) (acc : ByNonce)
      → at_nonce
          (some n)
          (reduce add_by_nonce acc (convert_rlp_encoded_tx_to_transaction_pool_tx decode xs))
        ≡ or_before (last_shown (λ t. t.nonce == n) xs) (at_nonce (some n) acc)
  unfolding reduce add_by_nonce convert_rlp_encoded_tx_to_transaction_pool_tx convert_rlp_encoded_tx
      last_shown
  group_by_nonce_step [] n acc = refl
  group_by_nonce_step (x ∷ xs) n acc =
      let t = convert_rlp_encoded_tx (decode x) in
      let rest = group_by_nonce_step xs n (add_by_nonce acc t) in
      let number = number_of-number_to_0x (decode x).nonce in
      let here = at_nonce-set_nonce (decode x).nonce n t acc in ground (arith, rest, number, here)

  insert_at :
      (a b : Text) (n : ℕ) (by_nonce : ByNonce) (o : List (Text × ByNonce))
      → at_address_and_nonce a n (insert b by_nonce o)
        ≡ (if text_eq b a then at_nonce (some n) by_nonce else at_address_and_nonce a n o)
  insert_at a b n by_nonce o = ground (arith, lookup-insert b a by_nonce o)

  add_by_address_and_nonce_lem :
      (x : Text) (a : Text) (n : ℕ) (o : List (Text × ByNonce))
      → at_address_and_nonce a n (add_by_address_and_nonce o (convert_rlp_encoded_tx (decode x)))
        ≡ (if text_eq (decode x).from a && (decode x).nonce == n
            then some (convert_rlp_encoded_tx (decode x))
            else at_address_and_nonce a n o)
  unfolding add_by_address_and_nonce add_by_nonce convert_rlp_encoded_tx at_nonce
  add_by_address_and_nonce_lem x a n o =
      let t = convert_rlp_encoded_tx (decode x) in
      let from = (decode x).from in
      let number = number_of-number_to_0x (decode x).nonce in
      elim (Option-cases (lookup from o)) [
        | inl gone ↦
            let by_nonce = set_nonce (some (decode x).nonce) t [] in
            let i = insert_at a from n by_nonce o in
            let h = at_nonce-set_nonce (decode x).nonce n t [] in
            elim (Bool-cases (text_eq from a)) [
              | inl e ↦
                  let same = (text_eq_iff from a).0 e in ground (arith, gone, number, i, h, e, same)
              | inr e ↦ ground (arith, gone, number, i, h, e)
            ]
        | inr (old, there) ↦
            let by_nonce = set_nonce (some (decode x).nonce) t old in
            let i = insert_at a from n by_nonce o in
            let h = at_nonce-set_nonce (decode x).nonce n t old in
            elim (Bool-cases (text_eq from a)) [
              | inl e ↦
                  let same = (text_eq_iff from a).0 e in
                  ground (arith, there, number, i, h, e, same)
              | inr e ↦ ground (arith, there, number, i, h, e)
            ]
      ]

  group_step :
      (xs : List Text) (a : Text) (n : ℕ) (o : List (Text × ByNonce))
      → at_address_and_nonce a n (
          reduce add_by_address_and_nonce o
            (convert_rlp_encoded_tx_to_transaction_pool_tx decode xs))
        ≡ or_before
            (last_shown (λ t. text_eq t.from a && t.nonce == n) xs)
            (at_address_and_nonce a n o)
  unfolding reduce convert_rlp_encoded_tx_to_transaction_pool_tx last_shown
  group_step [] a n o = refl
  group_step (x ∷ xs) a n o =
      let t = convert_rlp_encoded_tx (decode x) in
      let rest = group_step xs a n (add_by_address_and_nonce o t) in
      let here = add_by_address_and_nonce_lem x a n o in ground (arith, rest, here)

  or_nothing : (v : Option TxPoolTransaction) → or_before v none ≡ v
  or_nothing none = refl
  or_nothing (some t) = refl

  -- When both options are on, txpool_content shows under an address and a nonce the last payload of
  -- the pool that this sender signed with this nonce, and nothing when there is none; when one is
  -- off, it refuses.
  pub content_lem :
      (s : LocalPendingTransactionStorage) (a : Text) (n : ℕ)
      → ((o : List (Text × ByNonce)) × (content decode true true s ≡ ok o)
          × (at_address_and_nonce a n o
              ≡ last_shown (λ t. text_eq t.from a && t.nonce == n) (get_all_transactions s)))
        × (content decode true false s ≡ err unsupported_method)
        × ((pool : Bool) → content decode false pool s ≡ err unsupported_method)
  unfolding content group_by_address_and_nonce require_tx_pool_api_enabled lookup
  content_lem s a n =
      ((_, refl, group_step (get_all_transactions s) a n [] ∙ or_nothing _), refl, λ pool. refl)

  -- When both options are on, txpool_contentFrom shows under a nonce the last payload of the address
  -- with this nonce, whoever signed it, and nothing when there is none; when one is off, it refuses.
  pub content_from_lem :
      (s : LocalPendingTransactionStorage) (address : Text) (n : ℕ)
      → ((o : ByNonce) × (content_from decode true true s address ≡ ok o)
          × (at_nonce (some n) o ≡ last_shown (λ t. t.nonce == n) (get_transactions s address)))
        × (content_from decode true false s address ≡ err unsupported_method)
        × ((pool : Bool) → content_from decode false pool s address ≡ err unsupported_method)
  unfolding content_from group_by_nonce require_tx_pool_api_enabled at_nonce
  content_from_lem s address n = (
    (_, refl, group_by_nonce_step (get_transactions s address) n [] ∙ or_nothing _),
    refl,
    λ pool. refl,
  )
