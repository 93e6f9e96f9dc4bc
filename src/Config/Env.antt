-- ===== src/Config/Env.antt =====
-- proxy/config/config.go: `${env.NAME}` and what is put in for it. `os.LookupEnv` is an argument.
use llama_swap.Base.{
  ℕ, List, [], ◌∷◌, ◌++◌, Option, none, some, Bool, true, false, if◌then◌else◌, ◌||◌, any, ◌==◌,
  drop,
}
use llama_swap.Base.Text.{Text, codes, has_prefix, replace_all}
use llama_swap.Config.Types.{unset_environment, unsafe_environment, Result, ok, err, ◌>>=◌}
use llama_swap.Config.Macros.{is_letter, is_digit, or_next}

-- `[a-zA-Z_]` and `[a-zA-Z0-9_]`
abbrev pub starts_env : ℕ → Bool
starts_env c = is_letter c || (c == b'_')

abbrev pub is_env_char : ℕ → Bool
is_env_char c = starts_env c || is_digit c

unfoldable pub env_to_brace : Text → Option Text
env_to_brace [] = none
env_to_brace (c ∷ s) = elim (c == b'}') [
  | true ↦ some []
  | false ↦ elim (is_env_char c) [
    | true ↦ elim (env_to_brace s) [ none ↦ none | some n ↦ some (c ∷ n) ]
    | false ↦ none
  ]
]

abbrev pub starts_well : Option Text → Option Text
starts_well none = none
starts_well (some []) = none
starts_well (some (c ∷ n)) = if starts_env c then some (c ∷ n) else none

-- `envMacroRegex` at the start of a text, and all its matches.
unfoldable pub env_here : Text → Option Text
env_here s = if has_prefix s (codes "${env.") then starts_well (env_to_brace (drop 6 s)) else none

unfoldable pub find_env : Text → List Text
find_env [] = []
find_env (c ∷ s) = or_next (env_here (c ∷ s)) (find_env s)

-- `strings.ContainsAny(value, "\n\r\x00")`
abbrev pub breaks_yaml : ℕ → Bool
breaks_yaml c = (c == 10) || ((c == 13) || (c == 0))

-- `sanitizeEnvValueForYAML`: a backslash and a double quote get a backslash before them.
unfoldable pub escape : Text → Text
escape value = replace_all (replace_all value (92 ∷ []) (92 ∷ 92 ∷ [])) (34 ∷ []) (92 ∷ 34 ∷ [])

unfoldable pub sanitize_env_value : Text → Text → Result Text
sanitize_env_value value name =
    if any breaks_yaml value then err (unsafe_environment name) else ok (escape value)

abbrev pub env_slug : Text → Text
env_slug name = codes "${env." ++ (name ++ codes "}")

-- One match of `substituteEnvMacrosInString`.
abbrev pub put_env : Text → Text → Option Text → Result Text
put_env target name none = err (unset_environment [] name)
put_env target name (some value) =
    sanitize_env_value value name >>= λ safe. ok (replace_all target (env_slug name) safe)

-- `substituteEnvMacrosInString`, over the matches.
unfoldable pub substitute_env : (Text → Option Text) → Text → List Text → Result Text
substitute_env lookup_env target [] = ok target
substitute_env lookup_env target (name ∷ names) =
    put_env target name (lookup_env name) >>= λ next. substitute_env lookup_env next names

unfoldable pub substitute_env_macros_in_string : (Text → Option Text) → Text → Text → Result Text
substitute_env_macros_in_string lookup_env target scanned =
    substitute_env lookup_env target (find_env scanned)
