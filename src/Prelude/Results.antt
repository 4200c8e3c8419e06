-- ===== src/Prelude/Results.antt =====
-- The pair (value, error) that a Go function returns, as a sum, and the early return on an error.
use mathlib.Core.Path.{◌≡◌, refl}
use mathlib.Core.Logic.{◌⊎◌, inl, inr}

pub data Result {ℓ κ} (E : Type ℓ) (A : Type κ) : Type (ℓ ⊔ κ) where
  err : E → Result E A
  ok : A → Result E A

infixl 5 ◌>>=◌ ◌>>◌
-- What stands below `if err != nil { return err }`.
abbrev pub ◌>>=◌ {ℓ κ μ} :
    {E : Type ℓ} {A : Type κ} {B : Type μ} → Result E A → (A → Result E B) → Result E B
err early >>= rest = err early
ok value >>= rest = rest value

-- A test that returns early, and what stands below it.
abbrev pub ◌>>◌ {ℓ κ μ} :
    {E : Type ℓ} {A : Type κ} {B : Type μ} → Result E A → Result E B → Result E B
check >> rest = check >>= λ passed. rest

-- What a chain that succeeds has gone through.
pub >>=-eq-ok {ℓ κ μ} :
    {E : Type ℓ} {A : Type κ} {B : Type μ} {b : B} (first : Result E A) (rest : A → Result E B)
    → (first >>= rest) ≡ ok b
    → (a : A) × (first ≡ ok a) × (rest a ≡ ok b)
>>=-eq-ok (err early) rest returned = cc
>>=-eq-ok (ok value) rest returned = (value, refl, returned)

pub ok-injective {ℓ κ} :
    {E : Type ℓ} {A : Type κ} {a b : A} → ◌≡◌ {A = Result E A} (ok a) (ok b) → a ≡ b
ok-injective same = cc

pub err-injective {ℓ κ} :
    {E : Type ℓ} {A : Type κ} {a b : E} → ◌≡◌ {A = Result E A} (err a) (err b) → a ≡ b
err-injective same = cc

-- What stands behind a chain that ends in an error, if what follows it cannot fail.
pub >>-eq-err {ℓ κ μ} :
    {E : Type ℓ} {A : Type κ} {B : Type μ} {e : E} (check : Result E A) (b : B)
    → (check >> ok b) ≡ err e
    → check ≡ err e
>>-eq-err (err early) b returned = cc
>>-eq-err (ok value) b returned = cc

pub Result-cases {ℓ κ} :
    {E : Type ℓ} {A : Type κ} (r : Result E A) → ((a : A) × (r ≡ ok a)) ⊎ ((e : E) × (r ≡ err e))
Result-cases (ok a) = inl (a, refl)
Result-cases (err e) = inr (e, refl)
