-- ===== src/Dispatch.antt =====
-- packages/relay/src/lib/dispatcher/rpcMethodDispatcher.ts: the way of a request to the method that
-- answers it, and of its errors; packages/relay/src/lib/validators/index.ts: the rules on parameters.
-- The tests of the types of parameters are arguments, and a value that is neither undefined nor null
-- is of any type.
pub mod Validity
pub mod Answers
mod Examples
use mpcq_json_rpc_relay.Prelude.{
  ℕ, zero, suc, ◌+◌, ◌≡◌, Bool, true, false, Option, none, some, List, [], ◌∷◌, Text, codes,
  starts_with, length, if◌then◌else◌, ◌||◌, ◌==◌, ltb,
}
use mpcq_json_rpc_relay.Prelude.Results.{Result, ok, err, ◌>>=◌, ◌>>◌}

-- The errors of `predefined` that are answered; `json_rpc` is any other JsonRpcError.
pub data RpcError : Type 0 where
  invalid_parameters unsupported_method not_yet_implemented request_timeout : RpcError
  missing_required_parameter : ℕ → RpcError
  invalid_parameter : ℕ → RpcError
  method_not_found : Text → RpcError
  internal_error : Text → RpcError
  consensus_node_error : ℕ → Text → RpcError
  mirror_node_upstream_fail : ℕ → Text → RpcError
  json_rpc : Text → RpcError

-- What is thrown: by a status code and a message, or by a message alone.
pub data Thrown : Type 0 where
  rpc : RpcError → Thrown
  sdk_client : ℕ → Text → Thrown
  mirror_node_client : ℕ → Text → Thrown
  other : Text → Thrown

pub data Param (V : Type 0) : Type 0 where
  undefined null : Param V
  value : V → Param V

-- `IParamValidation`: its types, one or several, of which `TYPES` has the tests; `none` is a type that
-- `TYPES` does not have. A test may throw.
pub data ParamType (V : Type 0) : Type 0 where
  single : Option (V → Result Thrown Bool) → ParamType V
  several : List (V → Result Thrown Bool) → ParamType V

pub record IParamValidation (V : Type 0) : Type 0 where
  pub param_type : ParamType V
  pub required : Bool

-- What a method returns: a value, or an error as a value (a JsonRpcError, an SDKClientError or a
-- MirrorNodeClientError), which is not thrown.
pub data Returned (V : Type 0) : Type 0 where
  plain : V → Returned V
  error_value : Thrown → Returned V

-- A method: its rules, if it has some, and what it does.
pub record OperationHandler (V : Type 0) : Type 0 where
  pub rules : Option (List (IParamValidation V))
  pub handle : List (Param V) → Result Thrown (Returned V)

-- `params[index]`, undefined out of range.
unfoldable pub param_at : {V : Type 0} → List (Param V) → ℕ → Param V
param_at [] i = undefined
param_at (p ∷ ps) zero = p
param_at (p ∷ ps) (suc i) = param_at ps i

-- `paramType.map(...)` and `results.includes(true)`.
unfoldable pub some_passes : {V : Type 0} → List (V → Result Thrown Bool) → V → Result Thrown Bool
some_passes [] v = ok false
some_passes (test ∷ tests) v = do passed ← test v; rest ← some_passes tests v; ok (passed || rest)

unfoldable pub check_value : {V : Type 0} → ℕ → ParamType V → V → Result Thrown (Unit {0})
unfolding some_passes
check_value index (single none) v =
    err (rpc (internal_error (codes "Missing or unsupported param type")))
check_value index (single (some test)) v = do
  passed ← test v
  if passed then ok tt else err (rpc (invalid_parameter index))
check_value index (several tests) v = do
  passed ← some_passes tests v
  if passed then ok tt else err (rpc (invalid_parameter index))

unfoldable pub is_known : {V : Type 0} → ParamType V → Bool
is_known (single none) = false
is_known _ = true

unfoldable pub check_param :
    {V : Type 0} → ℕ → Param V → IParamValidation V → Result Thrown (Unit {0})
unfolding check_value
check_param index undefined validation =
    if validation.required then err (rpc (missing_required_parameter index)) else ok tt
check_param index null validation = err (rpc (invalid_parameter index))
check_param index (value v) validation = check_value index validation.param_type v

unfoldable pub validate_param :
    {V : Type 0} → ℕ → Param V → IParamValidation V → Result Thrown (Unit {0})
unfolding is_known check_param
validate_param index param validation =
    if is_known validation.param_type
    then check_param index param validation
    else err (rpc (internal_error (codes "Missing or unsupported param type")))

-- The rules from a number on.
unfoldable pub validate_from :
    {V : Type 0} → ℕ → List (Param V) → List (IParamValidation V) → Result Thrown (Unit {0})
unfolding validate_param param_at
validate_from index params [] = ok tt
validate_from index params (rule ∷ rules) =
    validate_param index (param_at params index) rule >> validate_from (suc index) params rules

unfoldable pub validate_params :
    {V : Type 0} → List (Param V) → List (IParamValidation V) → Result Thrown (Unit {0})
unfolding validate_from
validate_params params rules =
    if ltb (length rules) (length params)
    then err (rpc invalid_parameters)
    else validate_from 0 params rules

-- `if (methodParamSchemas) validateParams(...)`.
unfoldable pub validate_rules :
    {V : Type 0} → Option (List (IParamValidation V)) → List (Param V) → Result Thrown (Unit {0})
unfolding validate_params
validate_rules none params = ok tt
validate_rules (some rules) params = validate_params params rules

-- The error of a method that is not registered.
unfoldable pub throw_unregistered_rpc_methods : Text → Thrown
unfolding starts_with
throw_unregistered_rpc_methods method_name =
    if starts_with method_name (codes "engine_")
    then rpc unsupported_method
    else (if starts_with method_name (codes "trace_") || starts_with method_name (codes "debug_")
        then rpc not_yet_implemented
        else rpc (method_not_found method_name))

-- `a || b` on texts.
unfoldable pub or_text : Text → Text → Text
or_text [] b = b
or_text (c ∷ a) b = c ∷ a

unfoldable pub handle_rpc_method_error : ℕ → Thrown → RpcError
unfolding or_text
handle_rpc_method_error grpc_timeout (rpc e) = e
handle_rpc_method_error grpc_timeout (sdk_client status message) =
    if status == grpc_timeout then request_timeout else consensus_node_error status message
handle_rpc_method_error grpc_timeout (mirror_node_client status message) =
    mirror_node_upstream_fail status (or_text message (codes "Mirror node upstream failure"))
handle_rpc_method_error grpc_timeout (other message) =
    internal_error (or_text message (codes "Unknown error"))

-- `if (result instanceof ...) throw result`. A message alone is that of another error, which is no
-- instance of the three classes.
unfoldable pub rethrow_error : {V : Type 0} → Returned V → Result Thrown (Returned V)
rethrow_error (error_value (other message)) = ok (error_value (other message))
rethrow_error (error_value e) = err e
rethrow_error (plain v) = ok (plain v)

module _ {V : Type 0} (registry : Text → Option (OperationHandler V)) where
  unfoldable pub precheck_rpc_method : Text → List (Param V) → Result Thrown (OperationHandler V)
  unfolding throw_unregistered_rpc_methods validate_rules
  precheck_rpc_method name params = elim (registry name) [
    | none ↦ err (throw_unregistered_rpc_methods name)
    | some handler ↦ (do checked ← validate_rules handler.rules params; ok handler)
  ]

  -- What the method gives; an error that it returns is thrown. The rearrangement of the parameters
  -- belongs to `handle`.
  unfoldable pub process_rpc_method :
      OperationHandler V → List (Param V) → Result Thrown (Returned V)
  unfolding rethrow_error
  process_rpc_method handler params = do result ← handler.handle params; rethrow_error result

  unfoldable pub dispatch : ℕ → Text → List (Param V) → Result RpcError (Returned V)
  unfolding precheck_rpc_method process_rpc_method handle_rpc_method_error
  dispatch grpc_timeout name params =
      elim (do handler ← precheck_rpc_method name params; process_rpc_method handler params) [
        | ok r ↦ ok r
        | err e ↦ err (handle_rpc_method_error grpc_timeout e)
      ]
