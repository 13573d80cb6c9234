-- ===== src/Prelude/Results.antt =====
-- A result that is a value or an error, for Rust's `Result`.
use mathlib.Core.Path.{◌≡◌, refl}
use mathlib.Core.Option.{Option, none, some}

pub data Result {ℓ} (E A : Type ℓ) : Type ℓ where
  ok : A → Result E A
  err : E → Result E A

-- `Option::ok_or`.
abbrev pub ok_or {ℓ} : {E A : Type ℓ} → Option A → E → Result E A
ok_or none e = err e
ok_or (some a) e = ok a

-- The operator `?` and what follows it.
infixl 5 ◌>>=◌
abbrev pub ◌>>=◌ {ℓ} : {E A B : Type ℓ} → Result E A → (A → Result E B) → Result E B
err e >>= next = err e
ok value >>= next = next value

-- Where `?` went on to a value, the operand was a value and what follows made that value.
pub bind_passed {ℓ} :
    {E A B : Type ℓ} (operand : Result E A) (next : A → Result E B) {out : B}
    → operand >>= next ≡ ok out
    → (value : A) × (operand ≡ ok value) × (next value ≡ ok out)
bind_passed (err e) next passed = cc
bind_passed (ok value) next passed = (value, refl, passed)

pub ok-injective {ℓ} : {E A : Type ℓ} (a b : A) → ◌≡◌ {A = Result E A} (ok a) (ok b) → a ≡ b
ok-injective a b h = cc
