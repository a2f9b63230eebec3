-- ===== src/Prelude/Outcomes.antt =====
-- What a function with a Go `error` returns: a value, or the error in its place.
use mathlib.Core.Bool.{Bool, true, false}
use mathlib.Core.Path.{◌≡◌, refl}

pub data Outcome {ε ℓ} (E : Type ε) (A : Type ℓ) : Type (ε ⊔ ℓ) where
  err : E → Outcome E A
  ok : A → Outcome E A

-- `if err != nil { return err }`
infixl 5 ◌>>=◌
abbrev pub ◌>>=◌ {ε ℓ κ} :
    {E : Type ε} {A : Type ℓ} {B : Type κ} → Outcome E A → (A → Outcome E B) → Outcome E B
err failure >>= next = err failure
ok value >>= next = next value

infixl 5 ◌>>◌
abbrev pub ◌>>◌ {ε ℓ κ} :
    {E : Type ε} {A : Type ℓ} {B : Type κ} → Outcome E A → Outcome E B → Outcome E B
err failure >> next = err failure
ok value >> next = next

-- `if bad { return err }`
abbrev pub reject {ε} : {E : Type ε} → Bool → E → Outcome E (Unit {0})
reject true failure = err failure
reject false failure = ok tt

-- A sequence that succeeds has succeeded in both of its steps.
pub ok_steps {ε ℓ κ} :
    {E : Type ε} {A : Type ℓ} {B : Type κ} (first : Outcome E A) {next : A → Outcome E B} {last : B}
    → (first >>= next) ≡ ok last
    → (value : A) × (first ≡ ok value) × (next value ≡ ok last)
ok_steps (err failure) e = cc
ok_steps (ok value) e = (value, refl, e)

-- What comes behind a check runs only where the check passes.
pub reject_ok {ε ℓ} :
    {E : Type ε} {A : Type ℓ} (bad : Bool) (e : E) (next : Outcome E A) (a : A)
    → (reject bad e >> next) ≡ ok a
    → (bad ≡ false) × (next ≡ ok a)
reject_ok true e next a h = cc
reject_ok false e next a h = (refl, h)

pub then_ok {ε ℓ κ} :
    {E : Type ε} {A : Type ℓ} {B : Type κ} (first : Outcome E A) (next : Outcome E B) (b : B)
    → (first >> next) ≡ ok b
    → (a : A) × (first ≡ ok a) × (next ≡ ok b)
then_ok (err e) next b h = cc
then_ok (ok a) next b h = (a, refl, h)

pub reject_pass {ε} :
    {E : Type ε} (bad : Bool) (e : E) (done : Unit {0}) → reject bad e ≡ ok done → bad ≡ false
reject_pass true e done h = cc
reject_pass false e done h = refl
