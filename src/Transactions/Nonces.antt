-- ===== src/Transactions/Nonces.antt =====
-- What is answered when the network refused the nonce of a transaction.
use mpcq_json_rpc_relay.Prelude.{
  ℕ, zero, suc, ◌+◌, ◌≤◌, ◌<◌, ◌≡◌, ◌≢◌, ◌⊎◌, refl, ap, ◌∙◌, Bool, true, Option, none, some, arith,
  inl, inr, if◌then◌else◌, ltb, ◌==◌, if-cases,
}
use mpcq_json_rpc_relay.Prelude.Results.{Result, ok, err, ◌>>=◌, >>=-eq-ok}
use mpcq_json_rpc_relay.Transactions.{
  SdkClientError, SendError, nonce_too_high, nonce_too_low, sdk, error_value, Outside,
}
use mpcq_json_rpc_relay.Transactions.Submission.{
  poll_step, submitted_or_error, poll_account_nonce, nonce_error, no_nonce,
  send_raw_transaction_error_handler,
}

-- A nonce other than the transaction's, that one of the requests was answered with.
abbrev pub IsAnswered : Outside → ℕ → ℕ → ℕ → ℕ → Type 0
IsAnswered O nonce first left n =
    (n ≢ nonce) × ((i : ℕ) × (first ≤ i) × (i < first + left) × (O.account_nonce i ≡ ok (some n)))

later_lem :
    (O : Outside) (nonce first left n : ℕ)
    → IsAnswered O nonce (first + 1) left n
    → IsAnswered O nonce first (suc left) n
later_lem O nonce first left n (other, (i, low, high, answered)) =
    (other, (i, omega (arith, low), omega (arith, high), answered))

poll_step_lem :
    (nonce : ℕ) (answer later : Result SendError (Option ℕ)) (n : ℕ)
    → poll_step nonce answer later ≡ ok (some n)
    → (later ≡ ok (some n)) ⊎ ((n ≢ nonce) × (answer ≡ ok (some n)))
unfolding poll_step
poll_step_lem nonce (err e) later n h = absurd (ground arith)
poll_step_lem nonce (ok none) later n h = absurd (ground arith)
poll_step_lem nonce (ok (some m)) later n h = elim (if-cases (m == nonce) _ _ _ h) [
  | inl (same, z) ↦ inl z
  | inr (differ, z) ↦ inr ((λ e. ground (arith, differ, z, e)), z)
]

poll_account_nonce_lem :
    (O : Outside) (nonce first left n : ℕ)
    → poll_account_nonce O nonce first left ≡ ok (some n)
    → IsAnswered O nonce first left n
unfolding poll_account_nonce
poll_account_nonce_lem O nonce first zero n h = absurd (ground arith)
poll_account_nonce_lem O nonce first (suc left) n h =
    elim (poll_step_lem nonce (O.account_nonce first) _ n h) [
      | inl z ↦ later_lem O nonce first left n (poll_account_nonce_lem O nonce (first + 1) left n z)
      | inr (other, z) ↦ (other, (first, omega arith, omega arith, z))
    ]

nonce_error_lem :
    (nonce : ℕ) (n : Option ℕ) (x : SendError)
    → nonce_error nonce n ≡ ok (error_value x)
    → (m : ℕ) × (n ≡ some m)
      × (m ≢ nonce
          → ((0 < m) × (m < nonce) × (x ≡ nonce_too_high nonce m))
            ⊎ ((nonce < m) × (x ≡ nonce_too_low nonce m)))
unfolding nonce_error
nonce_error_lem nonce none x h = absurd (ground arith)
nonce_error_lem nonce (some zero) x h = absurd (ground arith)
nonce_error_lem nonce (some (suc m)) x h = elim (if-cases (ltb (suc m) nonce) _ _ _ h) [
  | inl (low, z) ↦
      (suc m, refl, (λ other. inl (omega arith, ground (arith, low), ground (arith, z))))
  | inr (high, z) ↦ (suc m, refl, (λ other. inr (ground (arith, high, other), ground (arith, z))))
]

-- When the nonce of a transaction is refused and an error is answered for it, the mirror node
-- answered, within the retries, a nonce of the account other than the transaction's and other than 0;
-- the answer is NONCE_TOO_HIGH when the account's is below, and NONCE_TOO_LOW when it is above.
pub send_raw_transaction_error_handler-nonce :
    (O : Outside) (nonce : ℕ) (taken : Bool) (e : SdkClientError) (x : SendError)
    → e.is_wrong_nonce ≡ true
    → send_raw_transaction_error_handler O nonce taken (sdk e) ≡ ok (error_value x)
    → (n : ℕ) × IsAnswered O nonce 0 O.retries n
      × (((0 < n) × (n < nonce) × (x ≡ nonce_too_high nonce n))
          ⊎ ((nonce < n) × (x ≡ nonce_too_low nonce n)))
unfolding send_raw_transaction_error_handler
send_raw_transaction_error_handler-nonce O nonce taken e x wrong h =
    elim (if-cases e.is_wrong_nonce _ _ _ h) [
      | inr (right, z) ↦ absurd (ground (arith, right, wrong))
      | inl (refused, z) ↦
          let (answer, polled, final) = >>=-eq-ok (poll_account_nonce O nonce 0 O.retries) _ z in
          let (m, is_m, outcome) = nonce_error_lem nonce answer x final in
          let found = poll_account_nonce_lem O nonce 0 O.retries m (polled ∙ ap (λ a. ok a) is_m) in
          (m, found, outcome found.0)
    ]

zero_polled :
    (O : Outside) (nonce retries : ℕ)
    → 0 < nonce
    → 0 < retries
    → O.account_nonce 0 ≡ ok (some 0)
    → poll_account_nonce O nonce 0 retries ≡ ok (some 0)
unfolding poll_account_nonce poll_step
zero_polled O nonce zero positive none_left answered = absurd (omega arith)
zero_polled O nonce (suc left) positive some_left answered =
    ap (λ (a : Result SendError (Option ℕ)). poll_step nonce a (poll_account_nonce O nonce 1 left))
      answered
    ∙ ground (arith, positive)

-- An account whose nonce is 0 is answered with INTERNAL_ERROR for a refused nonce, as when the mirror
-- node has no nonce for it, and not with NONCE_TOO_HIGH.
pub send_raw_transaction_error_handler-zero :
    (O : Outside) (nonce : ℕ) (taken : Bool) (e : SdkClientError)
    → e.is_wrong_nonce ≡ true
    → 0 < nonce
    → 0 < O.retries
    → O.account_nonce 0 ≡ ok (some 0)
    → send_raw_transaction_error_handler O nonce taken (sdk e) ≡ err no_nonce
unfolding send_raw_transaction_error_handler nonce_error
send_raw_transaction_error_handler-zero O nonce taken e wrong positive some_retries answered =
    ap
      (λ (b : Bool).
        if b
        then poll_account_nonce O nonce 0 O.retries >>= nonce_error nonce
        else submitted_or_error O taken (sdk e))
      wrong
    ∙ ap (λ (r : Result SendError (Option ℕ)). r >>= nonce_error nonce)
        (zero_polled O nonce O.retries positive some_retries answered)
