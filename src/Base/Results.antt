-- ===== src/Base/Results.antt =====
-- Operations that may throw: a result, its bind, and what a computation that returns satisfies.

-- What the code throws. `out_of_fuel` is the model's own and stands for a loop that goes on.
pub data Thrown : Type 0 where
  runtime_error invalid_argument logic_error out_of_fuel : Thrown

pub data Result {ℓ} (A : Type ℓ) : Type ℓ where
  ok : A → Result A
  throw : Thrown → Result A

-- `abbrev`, so that `ok a >>= f` computes wherever it stands.
infixl 5 ◌>>=◌
abbrev pub ◌>>=◌ {ℓ κ} : {A : Type ℓ} {B : Type κ} → Result A → (A → Result B) → Result B
ok a >>= f = f a
throw e >>= f = throw e

-- The computation returns, and its value has the property.
abbrev pub Returns {ℓ} : {A : Type ℓ} → Result A → (A → Type 0) → Type 0
Returns (ok a) P = P a
Returns (throw e) P = ⊥

pub Returns-bind {ℓ κ} :
    {A : Type ℓ} {B : Type κ} (P : A → Type 0) (Q : B → Type 0) (m : Result A) (f : A → Result B)
    → Returns m P
    → ((a : A) → P a → Returns (f a) Q)
    → Returns (m >>= f) Q
Returns-bind P Q (ok a) f h k = k a h
Returns-bind P Q (throw e) f h k = absurd h

pub Returns-mono {ℓ} :
    {A : Type ℓ} {P : A → Type 0} {Q : A → Type 0} (m : Result A)
    → Returns m P
    → ((a : A) → P a → Q a)
    → Returns m Q
Returns-mono (ok a) h k = k a h
Returns-mono (throw e) h k = absurd h

pub Returns-both {ℓ} :
    {A : Type ℓ} (P Q : A → Type 0) (m : Result A)
    → Returns m P
    → Returns m Q
    → Returns m (λ a. P a × Q a)
Returns-both P Q (ok a) h k = (h, k)
Returns-both P Q (throw e) h k = absurd h
