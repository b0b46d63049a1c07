-- ===== src/Integ/Rows.antt =====
-- The tests that scripts/verify-integ.ts makes on what it gets back: the invocations, the rows of
-- a query, the keys that a listing has. A method of a value that is undefined throws.
use cdk_log_to_s.Prelude.{
  ℕ, Text, codes, text_eq, ◌==◌, Bool, true, false, not, ◌&&◌, List, [], ◌∷◌, ◌++◌, any, get_elem?,
  length, take, drop, ◌-◌, starts_with, Option, none, some, Result, throws, ok, ◌>>=◌,
  if◌then◌else◌,
}
use cdk_log_to_s.Integ.Services.{Invoked}
use cdk_log_to_s.Integ.Keys.{base_name, includes}

-- `state === name`
unfoldable pub is_text : Option Text → Text → Bool
is_text none name = false
is_text (some state) name = text_eq state name

-- `!text`
unfoldable pub is_falsy : Option Text → Bool
is_falsy none = true
is_falsy (some []) = true
is_falsy (some (c ∷ s)) = false

-- `a || b`
unfoldable pub falsy_or : Option Text → Text → Text
falsy_or (some (c ∷ s)) b = c ∷ s
falsy_or _ b = b

-- `${text}`
unfoldable pub shown : Option Text → Text
shown none = codes "undefined"
shown (some s) = s

unfoldable pub is_200 : Option ℕ → Bool
is_200 none = false
is_200 (some n) = n == 200

-- `invoked.StatusCode === 200 && !invoked.FunctionError`
unfoldable pub succeeded : Invoked → Bool
succeeded invoked = is_200 invoked.status_code && is_falsy invoked.function_error

-- `keys.map((o) => o.Key!).filter(Boolean)`
unfoldable pub present : List (Option Text) → List Text
present [] = []
present (some (c ∷ key) ∷ keys) = (c ∷ key) ∷ present keys
present (_ ∷ keys) = present keys

unfoldable pub join : Text → List Text → Text
join separator [] = []
join separator (s ∷ []) = s
join separator (s ∷ t ∷ texts) = s ++ separator ++ join separator (t ∷ texts)

-- `xs.some(test)` and `xs.every(test)`, with a test that may throw.
module _ {A : Type 0} where
  unfoldable pub some_of : (A → Result Bool) → List A → Result Bool
  some_of test [] = ok false
  some_of test (x ∷ xs) = test x >>= λ b. if b then ok true else some_of test xs

  unfoldable pub every_of : (A → Result Bool) → List A → Result Bool
  every_of test [] = ok true
  every_of test (x ∷ xs) = test x >>= λ b. if b then every_of test xs else ok false

-- A call of a method that gives a Boolean.
unfoldable pub on_text : Option Text → Text → (Text → Bool) → Result Bool
on_text none method test =
    throws (codes "Cannot read properties of undefined (reading '" ++ method ++ codes "')")
on_text (some s) method test = ok (test s)

-- `body.subarray(-4)`
unfoldable pub last_4 : List ℕ → List ℕ
last_4 body = drop (length body - 4) body

unfoldable pub is_parquet : List ℕ → Bool
is_parquet body = text_eq (take 4 body) (codes "PAR1") && text_eq (last_4 body) (codes "PAR1")

-- `levels.has('INFO') && levels.has('ERROR')`
unfoldable pub has_level : Text → List (List Text) → Bool
has_level level rows = any (λ r. is_text (get_elem? r 0) level) rows

-- `r[i] !== ''`
unfoldable pub is_filled : ℕ → List Text → Bool
is_filled i r = not (is_text (get_elem? r i) [])

unfoldable pub has_integ_id : List Text → Result Bool
has_integ_id r = on_text (get_elem? r 4) (codes "startsWith") (starts_with (codes "integ-"))

unfoldable pub is_plain_text : List Text → Result Bool
is_plain_text r =
    if is_text (get_elem? r 1) []
    then on_text (get_elem? r 2) (codes "includes") (includes (codes "plain text line"))
    else ok false

unfoldable pub is_part : Option Text → Result Bool
is_part key = on_text key (codes "slice") (λ k. starts_with (codes "part-") (base_name k))

unfoldable pub is_manifest : Option Text → Result Bool
is_manifest key = on_text key (codes "includes") (includes (codes ".manifest.json"))
