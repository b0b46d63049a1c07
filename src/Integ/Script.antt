-- ===== src/Integ/Script.antt =====
-- The statements of scripts/verify-integ.ts: they may throw, end the process, print and record a
-- failed check, and they change the world outside. A loop may run out of the fuel of the model.
use cdk_log_to_s.Prelude.{
  ℕ, Text, codes, Bool, List, [], ◌∷◌, ◌++◌, Option, none, some, if◌then◌else◌,
}

pub data Outcome {ℓ} (A : Type ℓ) : Type ℓ where
  returned : A → Outcome A
  thrown : Text → Outcome A
  exited : ℕ → Outcome A
  unfinished : Outcome A

-- A call of `console.log` or of `console.error`.
pub data Line : Type 0 where
  log error : Text → Line

-- The world outside, the array `failures`, and what was printed.
pub record State (W : Type 0) : Type 0 where
  pub world : W
  pub failures : List Text
  pub printed : List Line

abbrev pub Script {ℓ} : Type 0 → Type ℓ → Type ℓ
Script W A = State W → Outcome A × State W

module _ {ℓ} {W : Type 0} {A : Type ℓ} where
  unfoldable pub pure : A → Script W A
  pure a s = (returned a, s)

  unfoldable pub throw : Text → Script W A
  throw message s = (thrown message, s)

  unfoldable pub out_of_fuel : Script W A
  out_of_fuel s = (unfinished, s)

module _ {ℓ κ} {W : Type 0} {A : Type ℓ} {B : Type κ} where
  -- What follows a statement that came to its end in a state.
  abbrev pub proceed : Outcome A → (A → Script W B) → Script W B
  proceed (returned a) next s = next a s
  proceed (thrown message) next s = (thrown message, s)
  proceed (exited code) next s = (exited code, s)
  proceed unfinished next s = (unfinished, s)

  infixl 10 ◌>>=◌ ◌>>◌
  unfoldable pub ◌>>=◌ : Script W A → (A → Script W B) → Script W B
  ◌>>=◌ m next s = proceed (m s).0 next (m s).1

  abbrev pub ◌>>◌ : Script W A → Script W B → Script W B
  m >> next = m >>= λ _. next

-- `detail ? "\n        " + detail : ""`.
unfoldable pub detail_text : Option Text → Text
detail_text none = []
detail_text (some []) = []
detail_text (some (c ∷ detail)) = codes "\n        " ++ (c ∷ detail)

module _ {W : Type 0} where
  -- `console.log(text)` and `console.error(text)`.
  unfoldable pub print : Line → Script W (Unit {0})
  print line s = (returned tt, record s { printed = s.printed ++ line ∷ [] })

  -- `process.exit(code)`.
  unfoldable pub exit : ℕ → Script W (Unit {0})
  exit code s = (exited code, s)

  -- `failures.push(description)`.
  unfoldable pub push_failure : Text → Script W (Unit {0})
  push_failure description s = (returned tt, record s { failures = s.failures ++ description ∷ [] })

  unfoldable pub check : Bool → Text → Option Text → Script W (Unit {0})
  check condition description detail =
      if condition
      then print (log (codes "  ok    " ++ description))
      else (print (error (codes "  FAIL  " ++ description ++ detail_text detail))
          >> push_failure description)
