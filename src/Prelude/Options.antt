-- ===== src/Prelude/Options.antt =====
-- `do` blocks over Option: `none` is a thrown exception that nothing tells apart.
use mathlib.Core.Option.{Option, none, some}
use mathlib.Core.Path.{◌≡◌, refl}

infixl 5 ◌>>=◌
abbrev pub ◌>>=◌ {ℓ κ} : {A : Type ℓ} {B : Type κ} → Option A → (A → Option B) → Option B
none >>= f = none
some a >>= f = f a

-- A block that returns has a value to go on with, and goes on to its own.
pub >>=-eq-some {ℓ κ} :
    {A : Type ℓ} {B : Type κ} (step : Option A) (rest : A → Option B) {answer : B}
    → (step >>= rest) ≡ some answer
    → (value : A) × (step ≡ some value) × (rest value ≡ some answer)
>>=-eq-some none rest done = cc
>>=-eq-some (some value) rest done = (value, refl, done)
