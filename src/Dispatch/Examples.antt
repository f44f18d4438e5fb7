-- ===== src/Dispatch/Examples.antt =====
-- A registry of one method, whose parameters are numbers: the first below 10, the second left out.
use mpcq_json_rpc_relay.Prelude.{
  ℕ, ◌+◌, ◌≤◌, ◌≡◌, ◌↔◌, Bool, true, false, Option, none, some, List, [], ◌∷◌, Text, codes, text_eq,
  ltb, if◌then◌else◌,
}
use mpcq_json_rpc_relay.Prelude.Results.{Result, ok}
use mpcq_json_rpc_relay.Dispatch.{
  Thrown, Param, value, single, several, IParamValidation, OperationHandler, plain, validate_params,
  dispatch,
}
use mpcq_json_rpc_relay.Dispatch.Validity.{AreAllowed, validate_params_iff}
use mpcq_json_rpc_relay.Dispatch.Answers.{Handles, dispatch_iff}

abbrev below_ten : ℕ → Result Thrown Bool
below_ten n = ok (ltb n 10)

abbrev rules : List (IParamValidation ℕ)
rules =
    record { param_type = single (some below_ten); required = true }
    ∷ record { param_type = several (below_ten ∷ []); required = false }
    ∷ []

abbrev first_param : List (Param ℕ) → ℕ
first_param (value n ∷ params) = n + 1
first_param _ = 0

abbrev registry : Text → Option (OperationHandler ℕ)
registry name =
    if text_eq name (codes "eth_next")
    then some (record { rules = some rules; handle = λ params. ok (plain (first_param params)) })
    else none

validate_params_iff_example :
    (validate_params (value 7 ∷ []) rules ≡ ok tt) ↔ ((1 ≤ 2) × AreAllowed 0 (value 7 ∷ []) rules)
validate_params_iff_example = validate_params_iff (value 7 ∷ []) rules

dispatch_iff_example :
    (dispatch registry 100 (codes "eth_next") (value 7 ∷ []) ≡ ok (plain 8))
    ↔ Handles registry (codes "eth_next") (value 7 ∷ []) (plain 8)
dispatch_iff_example = dispatch_iff registry 100 (codes "eth_next") (value 7 ∷ []) (plain 8)
