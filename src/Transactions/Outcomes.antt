-- ===== src/Transactions/Outcomes.antt =====
-- What is answered for a transaction that passed the checks.
use mpcq_json_rpc_relay.Prelude.{
  ℕ, zero, suc, ◌≡◌, ◌≢◌, ◌⊎◌, refl, ap, ◌∙◌, Bool, true, false, Option, none, some, [], ◌∷◌, Text,
  text_eq, arith, Bool-cases, Option-cases, if-cases, inl, inr, if◌then◌else◌,
}
use mpcq_json_rpc_relay.Prelude.Results.{Result, ok, err, Result-cases, >>=-eq-ok, >>-eq-ok}
use mpcq_json_rpc_relay.Formatters.TransactionId.{
  is_transaction_id, id_at_front, after_digit_dot, after_digits, after_char,
  format_transaction_id_without_query_params,
}
use mpcq_json_rpc_relay.Transactions.{
  SendError, unsupported_operation, invalid_arguments, internal_error, nonce_too_high,
  nonce_too_low, precheck, common, sdk, other, hash, Submitted, Outside,
}
use mpcq_json_rpc_relay.Transactions.Submission.{
  Submission, id_text, or_empty_text, invalid_id, after_submit, failed_submit, submission_of,
  submit_at, submit_transaction, poll_account_nonce, nonce_error, is_json_rpc, submitted_or_error,
  send_raw_transaction_error_handler,
}
use mpcq_json_rpc_relay.Transactions.Sending.{retrieve_hash, answer_submission}

valid_id :
    (id : Option Text)
    → (if is_transaction_id (id_text id) then none else some invalid_id) ≡ none
    → (is_transaction_id (or_empty_text id) ≡ true) × (text_eq (or_empty_text id) [] ≡ false)
unfolding is_transaction_id id_at_front after_digit_dot after_digits after_char text_eq
valid_id none h = ground arith
valid_id (some []) h = ground arith
valid_id (some (c ∷ s)) h = elim (Bool-cases (is_transaction_id (c ∷ s))) [
  | inl e ↦ (e, refl)
  | inr e ↦ absurd (ground (arith, rw e at h))
]

-- What holds of a submission without an error.
abbrev IsTaken : Submission → Type 0
IsTaken s =
    s.error ≡ none
    → (s.tx_submitted ≡ true)
      × (is_transaction_id s.submitted_transaction_id ≡ true)
      × (text_eq s.submitted_transaction_id [] ≡ false)

after_submit-IsTaken : (r : Submitted) → IsTaken (after_submit r)
unfolding after_submit
after_submit-IsTaken r h = let (valid, given) = valid_id r.transaction_id h in (refl, valid, given)

failed_submit-IsTaken : (e : SendError) → IsTaken (failed_submit e)
unfolding failed_submit
failed_submit-IsTaken e h = ground arith

submission_of-IsTaken : (r : Result SendError Submitted) → IsTaken (submission_of r)
unfolding submission_of
submission_of-IsTaken (err e) = failed_submit-IsTaken e
submission_of-IsTaken (ok r) = after_submit-IsTaken r

submit_at-IsTaken :
    (submitted : ℕ → Result SendError Submitted) (rate : Result SendError ℕ)
    → IsTaken (submit_at submitted rate)
unfolding submit_at
submit_at-IsTaken submitted (err e) = failed_submit-IsTaken e
submit_at-IsTaken submitted (ok rate) = submission_of-IsTaken (submitted rate)

-- A submission without an error was taken by the network under a valid id, so there is always an id
-- to ask for or an error to answer with.
pub submit_transaction-error :
    (O : Outside) (price : ℕ)
    → (submit_transaction O price).error ≡ none
    → ((submit_transaction O price).tx_submitted ≡ true)
      × (is_transaction_id (submit_transaction O price).submitted_transaction_id ≡ true)
      × (text_eq (submit_transaction O price).submitted_transaction_id [] ≡ false)
unfolding submit_transaction
submit_transaction-error O price h = submit_at-IsTaken (O.submitted price) O.exchange_rate h

nonce_error_lem : (nonce : ℕ) (n : Option ℕ) (h : Text) → nonce_error nonce n ≢ ok (hash h)
unfolding nonce_error
nonce_error_lem nonce none h e = ground arith
nonce_error_lem nonce (some zero) h e = ground arith
nonce_error_lem nonce (some (suc n)) h e = ground arith

submitted_or_error_lem :
    (O : Outside) (taken : Bool) (e : SendError) (h : Text)
    → submitted_or_error O taken e ≡ ok (hash h)
    → (taken ≡ true) × (h ≡ O.computed_hash)
unfolding submitted_or_error
submitted_or_error_lem O true e h a =
    let (reason, same) = >>-eq-ok (O.revert_reason e) _ a in (refl, ground (arith, same))
submitted_or_error_lem O false e h a = ground arith

handler_lem :
    (O : Outside) (nonce : ℕ) (taken : Bool) (e : SendError) (h : Text)
    → send_raw_transaction_error_handler O nonce taken e ≡ ok (hash h)
    → (taken ≡ true) × (h ≡ O.computed_hash)
unfolding send_raw_transaction_error_handler is_json_rpc
handler_lem O nonce taken unsupported_operation h a = ground arith
handler_lem O nonce taken invalid_arguments h a = ground arith
handler_lem O nonce taken (internal_error m) h a = ground arith
handler_lem O nonce taken (nonce_too_high m n) h a = ground arith
handler_lem O nonce taken (nonce_too_low m n) h a = ground arith
handler_lem O nonce taken (precheck p) h a = elim (Bool-cases (is_json_rpc (precheck p))) [
  | inl e ↦ absurd (ground (arith, rw e at a))
  | inr e ↦ submitted_or_error_lem O taken (precheck p) h (rw e at a)
]
handler_lem O nonce taken (common t) h a = elim (Bool-cases (is_json_rpc (common t))) [
  | inl e ↦ absurd (ground (arith, rw e at a))
  | inr e ↦ submitted_or_error_lem O taken (common t) h (rw e at a)
]
handler_lem O nonce taken (other m) h a = submitted_or_error_lem O taken (other m) h a
handler_lem O nonce taken (sdk e) h a = elim (if-cases e.is_wrong_nonce _ _ _ a) [
  | inl (wrong, b) ↦
      let (n, polled, answer) = >>=-eq-ok (poll_account_nonce O nonce 0 O.retries) _ b in
      absurd (nonce_error_lem nonce n h answer)
  | inr (not_wrong, b) ↦ submitted_or_error_lem O taken (sdk e) h b
]

retrieve_hash_lem :
    (O : Outside) (s : Submission) (h : Text)
    → retrieve_hash O s ≡ ok h
    → O.contract_result (format_transaction_id_without_query_params s.submitted_transaction_id)
      ≡ ok (some (some h))
unfolding retrieve_hash
retrieve_hash_lem O s h a =
    let (result, found, answer) =
      >>=-eq-ok
        (O.contract_result (format_transaction_id_without_query_params s.submitted_transaction_id))
        _ a in
    elim (Option-cases result) [
      | inl e ↦ absurd (ground (arith, rw e at answer))
      | inr (record_hash, e) ↦ elim (Option-cases record_hash) [
        | inl f ↦ absurd (ground (arith, rw (e, f) at answer))
        | inr (h', f) ↦
            let same : h' ≡ h = ground (arith, rw (e, f) at answer) in cc (found, e, f, same)
      ]
    ]

-- After a submission that is waited for, a hash is answered only when the mirror node has a record
-- of the transaction with that hash, or when the network took the transaction and the hash is the
-- computed one. Where transactions are processed in the background, which is the default, the
-- computed hash is answered before the submission, and what follows the submission is dropped.
pub answer_submission-hash :
    (O : Outside) (nonce : ℕ) (s : Submission) (h : Text)
    → answer_submission O nonce s ≡ ok (hash h)
    → (O.contract_result (format_transaction_id_without_query_params s.submitted_transaction_id)
        ≡ ok (some (some h)))
      ⊎ ((s.tx_submitted ≡ true) × (h ≡ O.computed_hash))
unfolding answer_submission
answer_submission-hash O nonce s h a =
    elim (if-cases (text_eq s.submitted_transaction_id []) _ _ _ a) [
      | inl (empty, b) ↦ elim (Option-cases s.error) [
        | inl e ↦ absurd (ground (arith, rw e at b))
        | inr (x, e) ↦ inr (handler_lem O nonce s.tx_submitted x h (rw e at b))
      ]
      | inr (given, b) ↦ elim (Result-cases (retrieve_hash O s)) [
        | inl (x, e) ↦ inr (handler_lem O nonce s.tx_submitted x h (rw e at b))
        | inr (h', e) ↦
            inl (retrieve_hash_lem O s h (e ∙ ap (λ x. ok x) (ground (arith, rw e at b))))
      ]
    ]
