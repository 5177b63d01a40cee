-- ===== src/Results.antt =====
-- Exceptions as values: a function that may throw returns `err` with the error.
use sysnode_backend.Base.{◌⊎◌, inl, inr, ◌≡◌, refl, Bool, true, false, Option, none, some}

pub data Result {ℓ κ} (E : Type κ) (A : Type ℓ) : Type (ℓ ⊔ κ) where
  ok : A → Result E A
  err : E → Result E A

infixl 5 ◌>>=◌ ◌>>◌
abbrev pub ◌>>=◌ {ℓ κ μ} :
    {E : Type μ} {A : Type ℓ} {B : Type κ} → Result E A → (A → Result E B) → Result E B
err thrown >>= after = err thrown
ok value >>= after = after value

abbrev pub ◌>>◌ {ℓ μ} : {E : Type μ} {B : Type ℓ} → Result E (Unit {0}) → Result E B → Result E B
err thrown >> m = err thrown
ok _ >> m = m

-- `if (!test) throw e`
abbrev pub require {μ} : {E : Type μ} → Bool → E → Result E (Unit {0})
require false thrown = err thrown
require true thrown = ok tt

-- Throws where a check of a value fails.
abbrev pub or_throw {ℓ μ} : {E : Type μ} {A : Type ℓ} → Option A → E → Result E A
or_throw (some a) e = ok a
or_throw none e = err e

pub >>=-eq-ok {ℓ κ μ} :
    {E : Type μ} {A : Type ℓ} {B : Type κ} (first : Result E A) (after : A → Result E B)
    {result : B}
    → (first >>= after) ≡ ok result
    → (value : A) × (first ≡ ok value) × (after value ≡ ok result)
>>=-eq-ok (err thrown) after h = cc
>>=-eq-ok (ok value) after h = (value, refl, h)

pub Result-cases {ℓ μ} :
    {E : Type μ} {A : Type ℓ} (r : Result E A) → ((e : E) × (r ≡ err e)) ⊎ ((a : A) × (r ≡ ok a))
Result-cases (ok a) = inr (a, refl)
Result-cases (err e) = inl (e, refl)

pub require-ok {ℓ κ} :
    {E : Type κ} {B : Type ℓ} (t : Bool) (thrown : E) (m : Result E B) {b : B}
    → (require t thrown >> m) ≡ ok b
    → (t ≡ true) × (m ≡ ok b)
require-ok true thrown m h = (refl, h)
require-ok false thrown m h = cc

pub or_throw-ok {ℓ κ μ} :
    {E : Type μ} {A : Type ℓ} {B : Type κ} (o : Option A) (thrown : E) (after : A → Result E B)
    {b : B}
    → (or_throw o thrown >>= after) ≡ ok b
    → (a : A) × (o ≡ some a) × (after a ≡ ok b)
or_throw-ok none thrown after h = cc
or_throw-ok (some a) thrown after h = (a, refl, h)

pub absurd_result {ℓ κ μ} :
    {E : Type μ} {A : Type ℓ} {B : Type κ} {a : A} {e : E} → Path (Result E A) (err e) (ok a) → B
absurd_result h = cc

pub err_inj {ℓ κ} : {E : Type κ} {A : Type ℓ} {a b : E} → Path (Result E A) (err a) (err b) → a ≡ b
err_inj e = cc

pub ok_inj {ℓ κ} : {E : Type κ} {A : Type ℓ} {a b : A} → Path (Result E A) (ok a) (ok b) → a ≡ b
ok_inj e = cc
