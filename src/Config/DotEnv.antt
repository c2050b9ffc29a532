-- ===== src/Config/DotEnv.antt =====
-- internal/platform/config/config.go: what the .env file may change, and quoted values.
use yield_forge.Base.{
  ℕ, false, ◌||◌, not, some, List, [], ◌∷◌, ◌++◌, ◌≡◌, ◌⊎◌, refl, sym, subst, inl, inr, arith,
  Bool-cases, Option-cases, ◌==◌,
}
use yield_forge.Base.Text.{
  Text, text_eq_iff, trim_space, contains_char, before, after, before-append,
}
use yield_forge.Base.Dict.{lookup, lookup-insert, text_key}
use yield_forge.Config.Env.{Env, no_text, keep_or_set, load_line, load_dot_env, parse_dot_env_value}

keep_or_set-set :
    (asked key v old : Text) (env : Env)
    → lookup asked env ≡ some old
    → lookup asked (keep_or_set key v env (lookup key env)) ≡ some old
keep_or_set-set asked key v old env h = elim (Option-cases (lookup key env)) [
  | inr (kept, found) ↦ rw found h
  | inl unset ↦ elim (Bool-cases (no_text key)) [
    | inl empty ↦ rw (unset, empty) h
    | inr named ↦ elim (Bool-cases (contains_char 0 key || contains_char 0 v)) [
      | inl refused ↦ rw (unset, named, refused) h
      | inr fine ↦
          rw (unset, named, fine)
            (ground (arith, lookup-insert key asked v env, text_eq_iff key asked, unset, h))
    ]
  ]
]

load_line-set :
    (asked line old : Text) (env : Env)
    → lookup asked env ≡ some old
    → lookup asked (load_line line env) ≡ some old
load_line-set asked [] old env h = h
load_line-set asked (c ∷ s) old env h =
    elim (Bool-cases ((c == b'#') || not (contains_char b'=' (c ∷ s)))) [
      | inl skipped ↦ rw skipped h
      | inr pair ↦ rw pair (
          keep_or_set-set asked (trim_space (before b'=' (c ∷ s)))
            (parse_dot_env_value (after b'=' (c ∷ s))) old env h)
    ]

-- A variable that the environment sets keeps its value, whatever the .env file says.
pub load_dot_env-set :
    (lines : List Text) (key old : Text) (env : Env)
    → lookup key env ≡ some old
    → lookup key (load_dot_env lines env) ≡ some old
unfolding load_dot_env
load_dot_env-set [] key old env h = h
load_dot_env-set (line ∷ lines) key old env h =
    load_dot_env-set lines key old (load_line (trim_space line) env)
      (load_line-set key (trim_space line) old env h)

-- A text written between two double or two single quotes that it does not hold is read back, whatever
-- follows.
parse_dot_env_value-quoted :
    (q : ℕ) (v rest : Text)
    → (q ≡ b'"') ⊎ (q ≡ 0x27)
    → contains_char q v ≡ false
    → parse_dot_env_value (q ∷ v ++ q ∷ rest) ≡ v
unfolding parse_dot_env_value
parse_dot_env_value-quoted q v rest (inl e) free =
    subst (λ x. contains_char x v ≡ false → parse_dot_env_value (x ∷ v ++ x ∷ rest) ≡ v) (sym e)
      (λ clean. let read = before-append b'"' v rest clean in rw (read.1, read.0) refl) free
parse_dot_env_value-quoted q v rest (inr e) free =
    subst (λ x. contains_char x v ≡ false → parse_dot_env_value (x ∷ v ++ x ∷ rest) ≡ v) (sym e)
      (λ clean. let read = before-append 0x27 v rest clean in rw (read.1, read.0) refl) free
