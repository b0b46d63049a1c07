-- ===== src/Prelude/Throws.antt =====
-- Code that may throw: the result, or the message of the `Error`.
use mathlib.Core.Path.{◌≡◌, refl}
use mathlib.Core.Bool.{Bool, true, false}
use mathlib.Core.Logic.{◌⊎◌, inl, inr}
use cdk_log_to_s.Prelude.Strings.{Text}

pub data Result {ℓ} (A : Type ℓ) : Type ℓ where
  throws : Text → Result A
  ok : A → Result A

-- `if (test) throw new Error(message)`.
abbrev pub throw_if : (test : Bool) (message : Text) → Result (Unit {0})
throw_if false message = ok tt
throw_if true message = throws message

infixl 5 ◌>>=◌ ◌>>◌
-- What follows a statement that may throw, with its value.
abbrev pub ◌>>=◌ {ℓ κ} : {A : Type ℓ} {B : Type κ} → Result A → (A → Result B) → Result B
throws message >>= next = throws message
ok value >>= next = next value

-- The same, where it has no value.
abbrev pub ◌>>◌ {ℓ} : {A : Type ℓ} → Result (Unit {0}) → Result A → Result A
throws message >> next = throws message
ok value >> next = next

-- A successful chain has a successful first step.
pub >>=-eq-ok {ℓ κ} :
    {A : Type ℓ} {B : Type κ} (m : Result A) (next : A → Result B) {b : B}
    → (m >>= next) ≡ ok b
    → (value : A) × (m ≡ ok value) × (next value ≡ ok b)
>>=-eq-ok (throws message) next h = cc
>>=-eq-ok (ok value) next h = (value, refl, h)

module _ {ℓ} {A : Type ℓ} where
  pub Result-cases : (r : Result A) → ((a : A) × (r ≡ ok a)) ⊎ ((e : Text) × (r ≡ throws e))
  Result-cases (ok a) = inl (a, refl)
  Result-cases (throws e) = inr (e, refl)

  pub ok-injective : {a b : A} → ok a ≡ ok b → a ≡ b
  ok-injective h = cc
