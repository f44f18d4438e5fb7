-- ===== src/Dispatch/Answers.antt =====
-- When a request is answered by its method, and with which error otherwise.
use mpcq_json_rpc_relay.Prelude.{
  ℕ, ◌≡◌, ◌≤◌, length, subst, ◌↔◌, inl, inr, refl, ap, sym, ◌∙◌, Option, none, some, List, Text,
  Option-cases,
}
use mpcq_json_rpc_relay.Prelude.Results.{Result, ok, err, ◌>>=◌, >>=-eq-ok}
use mpcq_json_rpc_relay.Dispatch.Validity.{AreAllowed, validate_params_iff}
use mpcq_json_rpc_relay.Dispatch.{
  rpc, sdk_client, mirror_node_client, other, Returned, plain, error_value, IParamValidation,
  rethrow_error, process_rpc_method, Thrown, Param, OperationHandler, handle_rpc_method_error,
  throw_unregistered_rpc_methods, validate_rules, precheck_rpc_method, dispatch,
}

-- The rules of a method, when it has some, allow the parameters.
abbrev pub RulesAllow : {V : Type 0} → Option (List (IParamValidation V)) → List (Param V) → Type 0
RulesAllow none params = Unit
RulesAllow (some rules) params = (length params ≤ length rules) × AreAllowed 0 params rules

-- No JsonRpcError, SDKClientError or MirrorNodeClientError that is returned as a value.
abbrev pub IsNoError : {V : Type 0} → Returned V → Type 0
IsNoError (plain v) = Unit
IsNoError (error_value (rpc e)) = ⊥
IsNoError (error_value (sdk_client status message)) = ⊥
IsNoError (error_value (mirror_node_client status message)) = ⊥
IsNoError (error_value (other message)) = Unit

rules_iff :
    {V : Type 0} (rules : Option (List (IParamValidation V))) (params : List (Param V))
    → (validate_rules rules params ≡ ok tt) ↔ RulesAllow rules params
unfolding validate_rules
rules_iff none params = ((λ h. tt), λ h. refl)
rules_iff (some rules) params = validate_params_iff params rules

same_value :
    {V : Type 0} (r : Result Thrown (Returned V)) (a b : Returned V) → r ≡ ok a → r ≡ ok b → a ≡ b
same_value r a b h k = cc (h, k)

rethrown : {V : Type 0} (a b : Returned V) → rethrow_error a ≡ ok b → (a ≡ b) × IsNoError a
unfolding rethrow_error
rethrown (plain v) b h = (same_value (rethrow_error (plain v)) (plain v) b refl h, tt)
rethrown (error_value (other m)) b h =
    (same_value (rethrow_error (error_value (other m))) (error_value (other m)) b refl h, tt)
rethrown (error_value (rpc e)) b h = cc
rethrown (error_value (sdk_client c m)) b h = cc
rethrown (error_value (mirror_node_client c m)) b h = cc

kept_value : {V : Type 0} (a : Returned V) → IsNoError a → rethrow_error a ≡ ok a
unfolding rethrow_error
kept_value (plain v) h = refl
kept_value (error_value (other m)) h = refl
kept_value (error_value (rpc e)) h = absurd h
kept_value (error_value (sdk_client c m)) h = absurd h
kept_value (error_value (mirror_node_client c m)) h = absurd h

module _ {V : Type 0} (registry : Text → Option (OperationHandler V)) where
  -- What the method of that name gives for the parameters, which its rules allow, when that is no
  -- error that is to be thrown.
  abbrev pub Handles : Text → List (Param V) → Returned V → Type 0
  Handles name params r =
      (handler : OperationHandler V) × (registry name ≡ some handler)
      × RulesAllow handler.rules params
      × (handler.handle params ≡ ok r)
      × IsNoError r

  unregistered :
      (name : Text) (params : List (Param V))
      → registry name ≡ none
      → precheck_rpc_method registry name params ≡ err (throw_unregistered_rpc_methods name)
  unfolding precheck_rpc_method
  unregistered name params h =
      ap
        (λ o. elim o [
          | none ↦ err (throw_unregistered_rpc_methods name)
          | some handler ↦ (do checked ← validate_rules handler.rules params; ok handler)
        ])
        h

  registered :
      (name : Text) (params : List (Param V)) (handler : OperationHandler V)
      → registry name ≡ some handler
      → precheck_rpc_method registry name params
        ≡ (do checked ← validate_rules handler.rules params; ok handler)
  unfolding precheck_rpc_method
  registered name params handler h =
      ap
        (λ o. elim o [
          | none ↦ err (throw_unregistered_rpc_methods name)
          | some found ↦ (do checked ← validate_rules found.rules params; ok found)
        ])
        h

  refused : (e : Thrown) (f : OperationHandler V) → err e ≡ ok f → ⊥
  refused e f h = cc

  same_handler :
      (r : Result Thrown (OperationHandler V)) (f g : OperationHandler V)
      → r ≡ ok f
      → r ≡ ok g
      → f ≡ g
  same_handler r f g h k = cc (h, k)

  caught-ok :
      (t : ℕ) (r : Result Thrown (Returned V)) (v : Returned V)
      → elim r [ ok w ↦ ok w | err e ↦ err (handle_rpc_method_error t e) ] ≡ ok v
      → r ≡ ok v
  caught-ok t (ok w) v h = cc
  caught-ok t (err e) v h = cc

  processed :
      (handler : OperationHandler V) (params : List (Param V)) (r : Returned V)
      → process_rpc_method registry handler params ≡ ok r
      → (handler.handle params ≡ ok r) × IsNoError r
  unfolding process_rpc_method
  processed handler params r h =
      let given = >>=-eq-ok (handler.handle params) _ h in
      let same = rethrown given.0 r given.2 in
      (given.1 ∙ ap ok same.0, subst IsNoError same.0 same.1)

  process :
      (handler : OperationHandler V) (params : List (Param V)) (r : Returned V)
      → handler.handle params ≡ ok r
      → IsNoError r
      → process_rpc_method registry handler params ≡ ok r
  unfolding process_rpc_method
  process handler params r given no_error =
      ap (λ g. (do result ← g; rethrow_error result)) given ∙ kept_value r no_error

  answered :
      (name : Text) (params : List (Param V)) (r : Returned V)
      → (do
        handler ← precheck_rpc_method registry name params
        process_rpc_method registry handler params)
        ≡ ok r
      → Handles name params r
  answered name params r h =
      let found = >>=-eq-ok (precheck_rpc_method registry name params) _ h in
      elim (Option-cases (registry name)) [
        | inl e ↦ absurd (refused _ found.0 (sym (unregistered name params e) ∙ found.1))
        | inr (handler, e) ↦
            let q =
              >>=-eq-ok (validate_rules handler.rules params) _
                (sym (registered name params handler e) ∙ found.1) in
            let given = processed handler params r (
              ap (λ f. process_rpc_method registry f params)
                (same_handler (ok handler) handler found.0 refl q.2)
              ∙ found.2) in
            (handler, e, (rules_iff handler.rules params).0 q.1, given.0, given.1)
      ]

  -- A request is answered with a value exactly when its method is registered, there are not more
  -- parameters than rules and each rule allows the parameter at its place, where the method has rules,
  -- and the method returns the value, which is no error of the relay, of the SDK or of the mirror
  -- node: such an error is not answered as a value although the method did not throw it.
  pub dispatch_iff :
      (t : ℕ) (name : Text) (params : List (Param V)) (r : Returned V)
      → (dispatch registry t name params ≡ ok r) ↔ Handles name params r
  unfolding dispatch
  dispatch_iff t name params r = (
    (λ h. answered name params r (caught-ok t _ r h)),
    λ (handler, found, allowed, given, no_error).
        ap
          (λ g. elim (do f ← g; process_rpc_method registry f params) [
            | ok w ↦ ok w
            | err e ↦ err (handle_rpc_method_error t e)
          ])
          (registered name params handler found
            ∙ ap (λ g. (do checked ← g; ok handler)) ((rules_iff handler.rules params).1 allowed))
        ∙ ap (λ g. elim g [ ok w ↦ ok w | err e ↦ err (handle_rpc_method_error t e) ])
            (process handler params r given no_error),
  )
