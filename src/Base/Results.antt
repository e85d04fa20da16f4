-- ===== src/Base/Results.antt =====
-- Go's `(value, error)` results, over the errors that one package returns.
use mathlib.Core.Path.{◌≡◌, refl}
use mathlib.Core.Logic.{◌⊎◌, inl, inr}
use mathlib.Core.Bool.{Bool, true, false}

pub data Result {ℓ κ} (E : Type κ) (A : Type ℓ) : Type (ℓ ⊔ κ) where
  ok : A → Result E A
  err : E → Result E A

infixl 5 ◌>>=◌ ◌>>◌
abbrev pub ◌>>=◌ {ℓ κ μ} :
    {E : Type μ} {A : Type ℓ} {B : Type κ} → Result E A → (A → Result E B) → Result E B
(ok x) >>= next = next x
(err failure) >>= next = err failure

abbrev pub ◌>>◌ {ℓ μ} : {E : Type μ} {B : Type ℓ} → Result E (Unit {0}) → Result E B → Result E B
first >> then_do = first >>= λ _. then_do

-- `if failed { return e }`
abbrev pub stop_if {μ} : {E : Type μ} → Bool → E → Result E (Unit {0})
stop_if true e = err e
stop_if false e = ok tt

pub >>=-eq-ok {ℓ κ μ} :
    {E : Type μ} {A : Type ℓ} {B : Type κ} (m : Result E A) (f : A → Result E B) {b : B}
    → (m >>= f) ≡ ok b
    → (x : A) × (m ≡ ok x) × (f x ≡ ok b)
>>=-eq-ok (err failure) f done = cc
>>=-eq-ok (ok x) f done = (x, refl, done)

pub Result-cases {ℓ μ} :
    {E : Type μ} {A : Type ℓ} (r : Result E A) → ((a : A) × (r ≡ ok a)) ⊎ ((e : E) × (r ≡ err e))
Result-cases (ok a) = inl (a, refl)
Result-cases (err e) = inr (e, refl)
