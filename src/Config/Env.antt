-- ===== src/Config/Env.antt =====
-- pkg/env/env.go, and the resolvers of pkg/util/env_resolver.go. The environment gives the value of a
-- variable that is set. Integers and durations are patterns of 64 bits, also those of an `int32`.

pub mod Numbers
use http_add_on.Prelude.{
  ℕ, Bool, true, false, ◌||◌, Option, none, some, List, [], ◌∷◌, ltb, leb, ◌>>=◌, if◌then◌else◌,
}
use http_add_on.Prelude.Text.{Text, text_eq, codes, listed}
use http_add_on.Prelude.Word.{word_mod}
use http_add_on.Scaler.ParseInt.{parse_int}

abbrev pub Env : Type 0
Env = Text → Option Text

-- `os.Getenv`, which is empty for a variable that is not set.
abbrev pub getenv : Option Text → Text
getenv none = []
getenv (some value) = value

-- `none` is an error.
unfoldable pub get : Env → Text → Option Text
get env env_name =
    let from_env = getenv (env env_name) in if text_eq from_env [] then none else some from_env

abbrev pub or_else : {A : Type 0} → A → Option A → A
or_else otherwise none = otherwise
or_else otherwise (some value) = value

unfoldable pub get_or : Env → Text → Text → Text
get_or env env_name otherwise = or_else otherwise (get env env_name)

-- `2 ^ 31`, and the pattern of `- 2 ^ 31`.
abbrev pub int32_above : ℕ
int32_above = 2147483648

abbrev pub int32_min : ℕ
int32_min = 18446744071562067968

abbrev pub is_int32 : ℕ → Bool
is_int32 n = ltb n int32_above || leb int32_min n

-- `strconv.ParseInt(s, 10, 32)`
unfoldable pub parse_int32 : Text → Option ℕ
parse_int32 s = do n ← parse_int s; if is_int32 n then some n else none

unfoldable pub get_int32_or : Env → Text → ℕ → ℕ
get_int32_or env env_name otherwise = or_else otherwise (get env env_name >>= parse_int32)

unfoldable pub get_int_or : Env → Text → ℕ → ℕ
get_int_or env env_name otherwise = or_else otherwise (get env env_name >>= parse_int)

-- `strconv.ParseBool`
abbrev pub parse_bool : Text → Option Bool
parse_bool s =
    if listed s
      (codes "1" ∷ codes "t" ∷ codes "T" ∷ codes "true" ∷ codes "TRUE" ∷ codes "True" ∷ [])
    then some true
    else if listed s
        (codes "0" ∷ codes "f" ∷ codes "F" ∷ codes "false" ∷ codes "FALSE" ∷ codes "False" ∷ [])
    then some false
    else none

-- `found && valueStr != ""`
abbrev pub present : Option Text → Option Text
present none = none
present (some value) = if text_eq value [] then none else some value

abbrev pub resolved : {A : Type 0} → (Text → Option A) → A → Option Text → Option A
resolved parse default none = some default
resolved parse default (some value) = parse value

unfoldable pub resolve_os_env_bool : Env → Text → Bool → Option Bool
resolve_os_env_bool env env_name default_value =
    resolved parse_bool default_value (present (env env_name))

unfoldable pub resolve_os_env_int : Env → Text → ℕ → Option ℕ
resolve_os_env_int env env_name default_value =
    resolved parse_int default_value (present (env env_name))

-- A duration, if there is one; `time.ParseDuration` is an argument.
abbrev pub resolve_duration : (Text → Option ℕ) → Option Text → Option (Option ℕ)
resolve_duration parse_duration none = some none
resolve_duration parse_duration (some value) = do d ← parse_duration value; some (some d)

unfoldable pub resolve_os_env_duration : (Text → Option ℕ) → Env → Text → Option (Option ℕ)
resolve_os_env_duration parse_duration env env_name =
    resolve_duration parse_duration (present (env env_name))
