-- ===== src/Prelude/Results.antt =====
-- A value or an error, for functions that return `(T, error)`.
use mathlib.Core.Path.{◌≡◌, refl, ap}

pub data Result {ℓ κ} (E : Type ℓ) (A : Type κ) : Type (ℓ ⊔ κ) where
  ok : A → Result E A
  err : E → Result E A

-- `if err != nil { return err }` between two calls
infixl 10 ◌>>=◌
abbrev pub ◌>>=◌ {ℓ κ μ} :
    {E : Type μ} {A : Type ℓ} {B : Type κ} → Result E A → (A → Result E B) → Result E B
◌>>=◌ (ok x) next = next x
◌>>=◌ (err fault) next = err fault

module _ {ℓ κ μ} {E : Type μ} {A : Type ℓ} {B : Type κ} where
  -- Both calls of a chain that returns a value have returned one.
  pub >>=-eq-ok :
      (first : Result E A) (next : A → Result E B) {y : B}
      → (first >>= next) ≡ ok y
      → (x : A) × (first ≡ ok x) × (next x ≡ ok y)
  >>=-eq-ok (ok x) next done = (x, refl, done)
  >>=-eq-ok (err fault) next done = cc

abbrev value_or {ℓ μ} : {E : Type μ} {A : Type ℓ} → A → Result E A → A
value_or d (ok x) = x
value_or d (err fault) = d

pub ok-injective {ℓ μ} :
    {E : Type μ} {A : Type ℓ} {x y : A} → ◌≡◌ {A = Result E A} (ok x) (ok y) → x ≡ y
ok-injective {x = x} h = ap (value_or x) h
