-- ===== src/Prelude/Results.antt =====
-- Results of fallible code, the option monad's bind, and their inversion.
use mathlib.Core.Path.{◌≡◌, refl}
use mathlib.Core.Option.{Option, none, some}

-- Rust's `Result<A, E>`.
pub data Result {ℓ κ} (E : Type κ) (A : Type ℓ) : Type (ℓ ⊔ κ) where
  ok : A → Result E A
  err : E → Result E A

-- The `?` of the source.
infixl 5 ◌>>=◌
abbrev pub ◌>>=◌ {κ ℓ μ} :
    {E : Type κ} {S : Type ℓ} {T : Type μ} → Result E S → (S → Result E T) → Result E T
ok x >>= next = next x
err failure >>= next = err failure

-- Inversion of a successful bind.
pub >>=-eq-ok {κ ℓ μ} :
    {E : Type κ} {S : Type ℓ} {T : Type μ} (first : Result E S) (next : S → Result E T) {y : T}
    → (first >>= next) ≡ ok y
    → (x : S) × (first ≡ ok x) × (next x ≡ ok y)
>>=-eq-ok (ok x) next returned = (x, refl, returned)
>>=-eq-ok (err failure) next returned = cc

-- `Option::ok_or_else`.
abbrev pub ok_or {ℓ κ} : {E : Type κ} {A : Type ℓ} → Option A → E → Result E A
ok_or (some a) e = ok a
ok_or none e = err e

-- `Option::and_then`.
abbrev pub and_then {ℓ κ} : {A : Type ℓ} {B : Type κ} → Option A → (A → Option B) → Option B
and_then (some a) f = f a
and_then none f = none

-- `Option::or_else`.
abbrev pub or_else {ℓ} : {A : Type ℓ} → Option A → Option A → Option A
or_else (some a) b = some a
or_else none b = b

-- `Option::unwrap_or`.
abbrev pub unwrap_or {ℓ} : {A : Type ℓ} → Option A → A → A
unwrap_or (some a) d = a
unwrap_or none d = d
