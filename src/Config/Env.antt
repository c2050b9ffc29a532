-- ===== src/Config/Env.antt =====
-- internal/platform/config/config.go: the readers of the environment, and the .env file.
use yield_forge.Base.{
  ℕ, Bool, true, false, ◌&&◌, ◌||◌, not, Option, none, some, List, [], ◌∷◌, if◌then◌else◌, ◌==◌,
}
use yield_forge.Base.Int.{ℤ}
use yield_forge.Base.Text.{Text, trim_space, contains_char, before, after, parse_int64}
use yield_forge.Base.Dict.{Dict, lookup, insert, text_key}
use yield_forge.Config.{
  Library, Float, Reason, Problem, not_integer, not_number, not_boolean, not_duration,
}
use mathlib.Core.List.{reverse}

-- The variables that are set.
abbrev pub Env : Type 0
Env = Dict Text Text

-- A value, or what is wrong with the variable.
pub data Read (A : Type 0) : Type 0 where
  value : A → Read A
  bad : Problem → Read A

-- `os.LookupEnv`, where an empty value counts as unset.
abbrev non_empty : Option Text → Option Text
non_empty none = none
non_empty (some []) = none
non_empty (some (c ∷ s)) = some (c ∷ s)

unfoldable pub env_value : Text → Env → Option Text
env_value key env = non_empty (lookup key env)

abbrev string_or : Text → Option Text → Text
string_or default none = default
string_or default (some v) = v

unfoldable pub get_string : Text → Text → Env → Text
get_string key default env = string_or default (env_value key env)

module _ {A : Type 0} where
  abbrev pub parsed : Text → Reason → Option A → Read A
  parsed key reason none = bad (record { key = key; reason = reason })
  parsed key reason (some a) = value a

  abbrev pub parsed_or : Text → Reason → A → (Text → Option A) → Option Text → Read A
  parsed_or key reason default parse none = value default
  parsed_or key reason default parse (some v) = parsed key reason (parse v)

unfoldable pub get_int : Text → ℤ → Env → Read ℤ
get_int key default env = parsed_or key not_integer default parse_int64 (env_value key env)

unfoldable pub get_float : Library → Text → Float → Env → Read Float
get_float lib key default env = parsed_or key not_number default lib.parse_float (env_value key env)

unfoldable pub get_bool : Library → Text → Bool → Env → Read Bool
get_bool lib key default env = parsed_or key not_boolean default lib.parse_bool (env_value key env)

unfoldable pub get_duration : Library → Text → ℤ → Env → Read ℤ
get_duration lib key default env =
    parsed_or key not_duration default lib.parse_duration (env_value key env)

-- `strings.Split` at commas, after the part that was read, which is kept in reverse.
abbrev pub split_commas : Text → Text → List Text
split_commas part [] = reverse part ∷ []
split_commas part (c ∷ s) =
    let closed = split_commas [] s in
    let longer = split_commas (c ∷ part) s in if c == b',' then reverse part ∷ closed else longer

abbrev pub no_text : Text → Bool
no_text [] = true
no_text (c ∷ s) = false

abbrev pub keep_items : List Text → List Text
keep_items [] = []
keep_items (p ∷ ps) =
    let rest = keep_items ps in if no_text (trim_space p) then rest else trim_space p ∷ rest

unfoldable pub split_and_trim : Text → List Text
split_and_trim s = keep_items (split_commas [] s)

abbrev pub is_space_or_tab : ℕ → Bool
is_space_or_tab c = (c == 0x20) || (c == 0x09)

abbrev pub trim_blanks : Text → Text
trim_blanks [] = []
trim_blanks (c ∷ s) = if is_space_or_tab c then trim_blanks s else c ∷ s

abbrev pub trim_blanks_right : Text → Text
trim_blanks_right s = reverse (trim_blanks (reverse s))

-- The text up to the first `#` behind a blank; the first argument is the code point before it.
abbrev pub without_comment : ℕ → Text → Text
without_comment previous [] = []
without_comment previous (c ∷ s) =
    let rest = without_comment c s in
    if (c == b'#') && is_space_or_tab previous then [] else c ∷ rest

abbrev pub unquoted : Text → Text
unquoted [] = []
unquoted (c ∷ s) = trim_blanks_right (c ∷ without_comment c s)

abbrev pub dot_env_value : Text → Text
dot_env_value [] = []
dot_env_value (q ∷ s) =
    if ((q == b'"') || (q == 0x27)) && contains_char q s then before q s else unquoted (q ∷ s)

unfoldable pub parse_dot_env_value : Text → Text
parse_dot_env_value raw = dot_env_value (trim_blanks raw)

-- `os.Setenv` refuses a zero byte.
abbrev pub set_env : Text → Text → Env → Env
set_env key v env = if contains_char 0 key || contains_char 0 v then env else insert key v env

abbrev pub keep_or_set : Text → Text → Env → Option Text → Env
keep_or_set key v env (some old) = env
keep_or_set key v env none = if no_text key then env else set_env key v env

abbrev pub load_line : Text → Env → Env
load_line [] env = env
load_line (c ∷ s) env =
    let key = trim_space (before b'=' (c ∷ s)) in
    let v = parse_dot_env_value (after b'=' (c ∷ s)) in
    if (c == b'#') || not (contains_char b'=' (c ∷ s))
    then env
    else keep_or_set key v env (lookup key env)

-- The lines that the scanner yields; none where the file cannot be opened.
unfoldable pub load_dot_env : List Text → Env → Env
load_dot_env [] env = env
load_dot_env (line ∷ lines) env = load_dot_env lines (load_line (trim_space line) env)
