-- ===== src/Base/Results.antt =====
-- `Result<T>` with its error, and the chain of `AU_TRY`.

use mathlib.Core.Path.{◌≡◌, refl}
use mathlib.Core.Bool.{Bool, true, false}

pub data Result {ℓ} (E : Type 0) (A : Type ℓ) : Type ℓ where
  ok : A → Result E A
  err : E → Result E A

infixl 5 ◌>>=◌ ◌>>◌
abbrev pub ◌>>=◌ {ℓ κ} :
    {E : Type 0} {A : Type ℓ} {B : Type κ} → Result E A → (A → Result E B) → Result E B
ok a >>= f = f a
err e >>= f = err e

abbrev pub ◌>>◌ {κ} : {E : Type 0} {B : Type κ} → Result E (Unit {0}) → Result E B → Result E B
m >> k = m >>= λ _. k

-- The test of a result in a condition.
abbrev pub has_value {ℓ} : {E : Type 0} {A : Type ℓ} → Result E A → Bool
has_value (ok a) = true
has_value (err e) = false

-- How a chain has succeeded: its first step's value, and what came of it.
pub record Succeeded {ℓ κ} {E : Type 0} {A : Type ℓ} {B : Type κ} (m : Result E A)
    (f : A → Result E B) (b : B) : Type (ℓ ⊔ κ) where
  pub value : A
  pub first : m ≡ ok value
  pub rest : f value ≡ ok b

pub succeeded {ℓ κ} :
    {E : Type 0} {A : Type ℓ} {B : Type κ} (m : Result E A) {f : A → Result E B} {b : B}
    → (m >>= f) ≡ ok b
    → Succeeded m f b
succeeded (err why) chain = cc
succeeded (ok a) chain = record { value = a; first = refl; rest = chain }
