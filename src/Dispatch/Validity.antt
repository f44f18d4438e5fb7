-- ===== src/Dispatch/Validity.antt =====
-- Which parameters the rules of a method let pass.
use mpcq_json_rpc_relay.Prelude.{
  ℕ, suc, ◌≤◌, ◌≡◌, ◌↔◌, ◌⊎◌, inl, inr, refl, ap, sym, codes, ◌∙◌, Bool, true, false, none, some,
  List, [], ◌∷◌, length, ltb, ◌||◌, if◌then◌else◌, arith, Bool-cases,
}
use mpcq_json_rpc_relay.Prelude.Results.{Result, ok, err, >>-eq-ok, >>=-eq-ok}
use mpcq_json_rpc_relay.Dispatch.{
  Thrown, rpc, internal_error, invalid_parameters, Param, undefined, null, value, ParamType, single,
  several, IParamValidation, param_at, some_passes, check_value, is_known, check_param,
  validate_param, validate_from, validate_params,
}

-- One of the tests passes, and none of them throws.
abbrev pub AnyPasses : {V : Type 0} → List (V → Result Thrown Bool) → V → Type 0
AnyPasses [] v = ⊥
AnyPasses (test ∷ tests) v = (test v ≡ ok true) ⊎ AnyPasses tests v

abbrev pub AllAnswer : {V : Type 0} → List (V → Result Thrown Bool) → V → Type 0
AllAnswer [] v = Unit
AllAnswer (test ∷ tests) v = ((b : Bool) × (test v ≡ ok b)) × AllAnswer tests v

abbrev pub IsOfType : {V : Type 0} → ParamType V → V → Type 0
IsOfType (single none) v = ⊥
IsOfType (single (some test)) v = test v ≡ ok true
IsOfType (several tests) v = AllAnswer tests v × AnyPasses tests v

-- What a parameter has to be: undefined only when it is not required, not null, and else of a type of
-- the rule.
abbrev pub IsAllowed : {V : Type 0} → Param V → IParamValidation V → Type 0
IsAllowed undefined rule = (is_known rule.param_type ≡ true) × (rule.required ≡ false)
IsAllowed null rule = ⊥
IsAllowed (value v) rule = IsOfType rule.param_type v

abbrev pub AreAllowed : {V : Type 0} → ℕ → List (Param V) → List (IParamValidation V) → Type 0
AreAllowed i params [] = Unit
AreAllowed i params (rule ∷ rules) =
    IsAllowed (param_at params i) rule × AreAllowed (suc i) params rules

some_passes-ok :
    {V : Type 0} (tests : List (V → Result Thrown Bool)) (v : V) (b : Bool)
    → some_passes tests v ≡ ok b
    → AllAnswer tests v
unfolding some_passes
some_passes-ok [] v b h = tt
some_passes-ok (test ∷ tests) v b h =
    let first = >>=-eq-ok (test v) _ h in
    let rest = >>=-eq-ok (some_passes tests v) _ first.2 in
    ((first.0, first.1), some_passes-ok tests v rest.0 rest.1)

some_passes-true :
    {V : Type 0} (tests : List (V → Result Thrown Bool)) (v : V)
    → some_passes tests v ≡ ok true
    → AnyPasses tests v
unfolding some_passes
some_passes-true [] v h = ground arith
some_passes-true (test ∷ tests) v h =
    let first = >>=-eq-ok (test v) _ h in
    let rest = >>=-eq-ok (some_passes tests v) _ first.2 in
    elim (Bool-cases first.0) [
      | inl e ↦ inl (first.1 ∙ ap ok e)
      | inr e ↦
          let more : rest.0 ≡ true = ground (arith, rest.2, e) in
          inr (some_passes-true tests v (rest.1 ∙ ap ok more))
    ]

some_passes-AllAnswer :
    {V : Type 0} (tests : List (V → Result Thrown Bool)) (v : V)
    → AllAnswer tests v
    → (b : Bool) × (some_passes tests v ≡ ok b)
unfolding some_passes
some_passes-AllAnswer [] v h = (false, refl)
some_passes-AllAnswer (test ∷ tests) v ((b, h), hs) =
    let r = some_passes-AllAnswer tests v hs in (b || r.0, ground (arith, h, r.1))

some_passes-AnyPasses :
    {V : Type 0} (tests : List (V → Result Thrown Bool)) (v : V)
    → AllAnswer tests v
    → AnyPasses tests v
    → some_passes tests v ≡ ok true
unfolding some_passes
some_passes-AnyPasses [] v h p = absurd p
some_passes-AnyPasses (test ∷ tests) v ((b, h), hs) (inl p) =
    let r = some_passes-AllAnswer tests v hs in ground (arith, h, p, r.1)
some_passes-AnyPasses (test ∷ tests) v ((b, h), hs) (inr p) =
    let more = some_passes-AnyPasses tests v hs p in ground (arith, h, more)

check_value_iff :
    {V : Type 0} (i : ℕ) (type : ParamType V) (v : V)
    → (check_value i type v ≡ ok tt) ↔ IsOfType type v
unfolding check_value
check_value_iff i (single none) v = ((λ h. ground arith), λ h. absurd h)
check_value_iff i (single (some test)) v = (
  λ h.
      let r = >>=-eq-ok (test v) _ h in
      let passed : r.0 ≡ true = ground (arith, r.2) in r.1 ∙ ap ok passed,
  λ h. rw h refl,
)
check_value_iff i (several tests) v = (
  λ h.
      let r = >>=-eq-ok (some_passes tests v) _ h in
      let passed : r.0 ≡ true = ground (arith, r.2) in
      (some_passes-ok tests v r.0 r.1, some_passes-true tests v (r.1 ∙ ap ok passed)),
  λ h. rw (some_passes-AnyPasses tests v h.0 h.1) refl,
)

known_type : {V : Type 0} (type : ParamType V) (v : V) → IsOfType type v → is_known type ≡ true
unfolding is_known
known_type (single none) v h = absurd h
known_type (single (some test)) v h = refl
known_type (several tests) v h = refl

validate_value :
    {V : Type 0} (i : ℕ) (v : V) (rule : IParamValidation V)
    → is_known rule.param_type ≡ true
    → validate_param i (value v) rule ≡ check_value i rule.param_type v
unfolding validate_param check_param
validate_value i v rule e =
    ap
      (λ b.
        if b
        then check_value i rule.param_type v
        else err (rpc (internal_error (codes "Missing or unsupported param type"))))
      e

validate_param_iff :
    {V : Type 0} (i : ℕ) (p : Param V) (rule : IParamValidation V)
    → (validate_param i p rule ≡ ok tt) ↔ IsAllowed p rule
unfolding validate_param check_param
validate_param_iff i undefined rule =
    ((λ h. (ground (arith, h), ground (arith, h))), λ h. ground (arith, h.0, h.1))
validate_param_iff i null rule = ((λ h. ground (arith, h)), λ h. absurd h)
validate_param_iff i (value v) rule = (
  λ h. elim (Bool-cases (is_known rule.param_type)) [
    | inl e ↦ (check_value_iff i rule.param_type v).0 (sym (validate_value i v rule e) ∙ h)
    | inr e ↦ absurd (ground (arith, h, e))
  ],
  λ h.
      validate_value i v rule (known_type rule.param_type v h)
      ∙ (check_value_iff i rule.param_type v).1 h,
)

validate_from_iff :
    {V : Type 0} (i : ℕ) (params : List (Param V)) (rules : List (IParamValidation V))
    → (validate_from i params rules ≡ ok tt) ↔ AreAllowed i params rules
unfolding validate_from
validate_from_iff i params [] = ((λ h. tt), λ h. refl)
validate_from_iff i params (rule ∷ rules) = (
  λ h.
      let both = >>-eq-ok (validate_param i (param_at params i) rule) _ h in
      (
        (validate_param_iff i (param_at params i) rule).0 both.0,
        (validate_from_iff (suc i) params rules).0 both.1,
      ),
  λ h.
      rw ((validate_param_iff i (param_at params i) rule).1 h.0)
        ((validate_from_iff (suc i) params rules).1 h.1),
)

-- The parameters pass exactly when there are not more of them than rules, and each rule allows the
-- parameter at its place: undefined when it is not required, and else a value that is not null, of
-- which a test of the rule passes and no test throws.
pub validate_params_iff :
    {V : Type 0} (params : List (Param V)) (rules : List (IParamValidation V))
    → (validate_params params rules ≡ ok tt)
      ↔ ((length params ≤ length rules) × AreAllowed 0 params rules)
unfolding validate_params
validate_params_iff params rules = elim (Bool-cases (ltb (length rules) (length params))) [
  | inl e ↦ ((λ h. absurd (ground (arith, h, e))), λ h. absurd (ground (arith, h.0, e)))
  | inr e ↦
      let same =
        ap (λ b. if b then err (rpc invalid_parameters) else validate_from 0 params rules) e in
      (
        (λ h. (ground (arith, e), (validate_from_iff 0 params rules).0 (sym same ∙ h))),
        λ h. same ∙ (validate_from_iff 0 params rules).1 h.1,
      )
]
