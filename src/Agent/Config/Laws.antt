-- ===== src/Agent/Config/Laws.antt =====
-- How the blocks of `loadConfig` read the text of one variable.
use mathlib.Core.Option
use cdk_log_to_s.Prelude.{
  leb, to_upper_case, drop_while, drop_while_end, ℕ, ◌*◌, ◌<◌, ◌≤◌, ◌≡◌, ◌≢◌, Text, String, codes,
  text_eq, text_eq_iff, lookup, number_text, bool_text, refl, Option, none, some, ◌or_else◌, List,
  [], ◌∷◌, Bool, true, false, arith, Bool-cases, inl, inr,
}
use cdk_log_to_s.Extension.{LogLevel, LogCompression, level_text, compression_text}
use cdk_log_to_s.Go.Strconv.{ℤ, parse_bool, int_limit}
use cdk_log_to_s.Go.Strconv.Laws.{
  atoi-number_text, number_text-some, to_int64-small, parse_bool-bool_text,
}
use cdk_log_to_s.Go.Strings.{to_lower, trim_space, is_space}
use cdk_log_to_s.Agent.Config.{
  Level, Environment, os_getenv, get_env, first_non_empty, setting, level_setting, parse_level,
  is_supported_compression, codec_for, flush_of, wait_of, bytes_of, compression_of, second,
  millisecond,
}

text_eq-none : (t : Text) → t ≢ [] → text_eq t [] ≡ false
text_eq-none t h = elim (Bool-cases (text_eq t [])) [
  | inl e ↦ absurd (h ((text_eq_iff t []).0 e))
  | inr e ↦ e
]

pub os_getenv-some :
    (env : Environment) (key : String) (t : Text) → lookup key env ≡ some t → os_getenv env key ≡ t
unfolding os_getenv
os_getenv-some env key t h = rw h

-- A variable that is set or not: the block reads what `render` wrote, or keeps its default.
pub setting-read :
    {X A : Type 0} (env : Environment) (key : String) (accept : Text → Option A) (fallback : A)
    (render : X → Text) (value : X → A) (o : Option X)
    → lookup key env ≡ Option.map render o
    → ((x : X) → o ≡ some x → (render x ≢ []) × (accept (render x) ≡ some (value x)))
    → setting key accept fallback (os_getenv env key) ≡ (Option.map value o or_else fallback, [])
unfolding setting os_getenv text_eq
setting-read env key accept fallback render value none h k = rw h
setting-read env key accept fallback render value (some x) h k =
    rw (h, text_eq-none (render x) (k x refl).0, (k x refl).1)

-- The level of the extension for one of the construct, and the codec's name.
abbrev pub level_of : LogLevel → Level
level_of LogLevel.debug = Level.level_debug
level_of LogLevel.info = Level.level_info
level_of LogLevel.warn = Level.level_warn
level_of LogLevel.error = Level.level_error

pub level_setting-read : (l : LogLevel) → level_setting (level_text l) ≡ (level_of l, [])
unfolding level_setting level_text text_eq parse_level to_upper_case trim_space drop_while
    drop_while_end is_space
level_setting-read LogLevel.debug = refl
level_setting-read LogLevel.info = refl
level_setting-read LogLevel.warn = refl
level_setting-read LogLevel.error = refl

pub level_text-some : (l : LogLevel) → level_text l ≢ []
unfolding level_text
level_text-some LogLevel.debug h = cc
level_text-some LogLevel.info h = cc
level_text-some LogLevel.warn h = cc
level_text-some LogLevel.error h = cc

pub compression_of-text :
    (c : LogCompression)
    → (compression_text c ≢ []) × (compression_of (compression_text c) ≡ some (compression_text c))
unfolding compression_text compression_of to_lower trim_space drop_while drop_while_end is_space
    is_supported_compression codec_for text_eq
compression_of-text LogCompression.snappy = ((λ h. cc), refl)
compression_of-text LogCompression.zstd = ((λ h. cc), refl)
compression_of-text LogCompression.gzip = ((λ h. cc), refl)
compression_of-text LogCompression.uncompressed = ((λ h. cc), refl)

positive-leb : (n : ℕ) → 0 < n → leb n 0 ≡ false
positive-leb n h = ground (arith, h)

pub flush_of-number_text :
    (n : ℕ) → 0 < n → n ≤ 9223372036 → flush_of (number_text n) ≡ some (ℤ.pos (n * second))
unfolding flush_of
flush_of-number_text n h k = rw (
  atoi-number_text n (omega (arith, k)),
  positive-leb n h,
  to_int64-small (n * second) (omega (arith, k)),
)

pub wait_of-number_text :
    (n : ℕ) → n ≤ 9223372036854 → wait_of (number_text n) ≡ some (ℤ.pos (n * millisecond))
unfolding wait_of
wait_of-number_text n k =
    rw (atoi-number_text n (omega (arith, k)), to_int64-small (n * millisecond) (omega (arith, k)))

pub bytes_of-number_text : (n : ℕ) → 0 < n → n < int_limit → bytes_of (number_text n) ≡ some n
unfolding bytes_of
bytes_of-number_text n h k = rw (atoi-number_text n k) (ground (arith, h))

pub bool_text-read : (b : Bool) → (bool_text b ≢ []) × (parse_bool (bool_text b) ≡ some b)
unfolding bool_text
bool_text-read true = ((λ h. cc), parse_bool-bool_text true)
bool_text-read false = ((λ h. cc), parse_bool-bool_text false)

pub get_env-some :
    (env : Environment) (key : String) (t fallback : Text)
    → lookup key env ≡ some t
    → t ≢ []
    → get_env env key fallback ≡ t
unfolding get_env
get_env-some env key t fallback h k = rw (h, text_eq-none t k)

pub first_non_empty-some :
    (env : Environment) (key : String) (t : Text) (values : List Text)
    → lookup key env ≡ some t
    → t ≢ []
    → first_non_empty (os_getenv env key ∷ values) ≡ t
unfolding first_non_empty os_getenv
first_non_empty-some env key t values h k = rw (h, text_eq-none t k)

-- The port, which has no other test than that its text is not empty.
pub get_env-port :
    (env : Environment) (key : String) (o : Option ℕ)
    → lookup key env ≡ Option.map number_text o
    → get_env env key (codes "2020") ≡ (Option.map number_text o or_else codes "2020")
unfolding get_env text_eq
get_env-port env key none h = rw h
get_env-port env key (some n) h = rw (h, text_eq-none (number_text n) (number_text-some n))
