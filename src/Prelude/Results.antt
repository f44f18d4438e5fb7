-- ===== src/Prelude/Results.antt =====
-- Results of code that throws: a value or an error.
use mathlib.Core.Path.{◌≡◌, refl}
use mathlib.Core.Logic.{◌⊎◌, inl, inr}
use mathlib.Core.Bool.{Bool, true, false}

pub data Result {ℓ κ} (E : Type κ) (A : Type ℓ) : Type (ℓ ⊔ κ) where
  ok : A → Result E A
  err : E → Result E A

-- The rest of a block after a value, and after a step that returns nothing: an error ends the block.
infixl 5 ◌>>◌ ◌>>=◌
abbrev pub ◌>>◌ {ℓ η} : {E : Type η} {B : Type ℓ} → Result E (Unit {0}) → Result E B → Result E B
err e >> rest = err e
ok tt >> rest = rest

abbrev pub ◌>>=◌ {ℓ κ η} :
    {E : Type η} {A : Type ℓ} {B : Type κ} → Result E A → (A → Result E B) → Result E B
err e >>= rest = err e
ok a >>= rest = rest a

-- `if (test) throw e`.
abbrev pub throw_if {η} : {E : Type η} → Bool → E → Result E (Unit {0})
throw_if true e = err e
throw_if false e = ok tt

-- A step that returns nothing succeeds before the rest exactly when both succeed.
pub >>-eq-ok {ℓ η} :
    {E : Type η} {B : Type ℓ} (m : Result E (Unit {0})) (k : Result E B) {b : B}
    → (m >> k) ≡ ok b
    → (m ≡ ok tt) × (k ≡ ok b)
>>-eq-ok (ok tt) k h = (refl, h)
>>-eq-ok (err e) k h = cc

-- A block that succeeds has a value to go on with, and goes on to its own.
pub >>=-eq-ok {ℓ κ η} :
    {E : Type η} {A : Type ℓ} {B : Type κ} (step : Result E A) (rest : A → Result E B) {answer : B}
    → (step >>= rest) ≡ ok answer
    → (value : A) × (step ≡ ok value) × (rest value ≡ ok answer)
>>=-eq-ok (err e) rest done = cc
>>=-eq-ok (ok value) rest done = (value, refl, done)

pub Result-cases {ℓ κ} :
    {E : Type κ} {A : Type ℓ} (r : Result E A) → ((e : E) × (r ≡ err e)) ⊎ ((a : A) × (r ≡ ok a))
Result-cases (err e) = inl (e, refl)
Result-cases (ok a) = inr (a, refl)
