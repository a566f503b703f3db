-- ===== src/Base/Outcomes.antt =====
-- What a call in C can come to: it returns, it stops the process (a failed `assert`, `AN`, `AZ` or
-- `INCOMPL`, or `vtc_fatal`), or the language gives it no meaning (a shift by the width or more, an
-- access outside the buffer).
use mathlib.Core.Path.{◌≡◌, refl}

pub data Outcome {ℓ} (A : Type ℓ) : Type ℓ where
  ret : A → Outcome A
  aborted : Outcome A
  undefined : Outcome A

infixl 5 ◌>>=◌ ◌>>◌
abbrev pub ◌>>=◌ {ℓ κ} : {A : Type ℓ} {B : Type κ} → Outcome A → (A → Outcome B) → Outcome B
ret a >>= f = f a
aborted >>= f = aborted
undefined >>= f = undefined

abbrev pub ◌>>◌ {ℓ} : {B : Type ℓ} → Outcome (Unit {0}) → Outcome B → Outcome B
m >> k = m >>= λ _. k

pub >>=-eq-ret {ℓ κ} :
    {A : Type ℓ} {B : Type κ} (m : Outcome A) (f : A → Outcome B) {b : B}
    → (m >>= f) ≡ ret b
    → (a : A) × (m ≡ ret a) × (f a ≡ ret b)
>>=-eq-ret (ret a) f h = (a, refl, h)
>>=-eq-ret aborted f h = cc
>>=-eq-ret undefined f h = cc

-- Whatever the call returns satisfies `P`. Where it must return, a theorem says so besides.
abbrev pub Ensures {ℓ κ} : {A : Type ℓ} → (A → Type κ) → Outcome A → Type κ
Ensures P (ret a) = P a
Ensures P aborted = Unit
Ensures P undefined = Unit

-- The call returns, and what it returns satisfies `P`.
abbrev pub Returns {ℓ} : {A : Type ℓ} → (A → Type 0) → Outcome A → Type 0
Returns P (ret a) = P a
Returns P aborted = ⊥
Returns P undefined = ⊥

pub >>=-Returns {ℓ κ} :
    {A : Type ℓ} {B : Type κ} (P : A → Type 0) (Q : B → Type 0) (m : Outcome A) (f : A → Outcome B)
    → Returns P m
    → ((a : A) → P a → Returns Q (f a))
    → Returns Q (m >>= f)
>>=-Returns P Q (ret a) f h k = k a h
>>=-Returns P Q aborted f h k = absurd h
>>=-Returns P Q undefined f h k = absurd h

-- Whatever a first call returns, the second ensures.
pub >>=-Ensures {ℓ κ ν} :
    {A : Type ℓ} {B : Type κ} (Q : B → Type ν) (m : Outcome A) (f : A → Outcome B)
    → ((a : A) → m ≡ ret a → Ensures Q (f a))
    → Ensures Q (m >>= f)
>>=-Ensures Q (ret a) f k = k a refl
>>=-Ensures Q aborted f k = tt
>>=-Ensures Q undefined f k = tt

pub Returns-map {ℓ} :
    {A : Type ℓ} (P Q : A → Type 0) (m : Outcome A)
    → Returns P m
    → ((a : A) → P a → Q a)
    → Returns Q m
Returns-map P Q (ret a) h k = k a h
Returns-map P Q aborted h k = absurd h
Returns-map P Q undefined h k = absurd h
