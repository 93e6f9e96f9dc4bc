-- ===== src/Config/Macros.antt =====
-- proxy/config/config.go: macros, their validation, their substitution, and the search for those
-- that are left.
use llama_swap.Base.{
  ℕ, List, [], ◌∷◌, ◌++◌, Option, none, some, Bool, true, false, if◌then◌else◌, ◌||◌, ◌&&◌, not,
  ltb, leb, ◌==◌, length, all, drop,
}
use llama_swap.Base.Text.{Text, codes, text_eq, contains, contains_text, has_prefix, replace_all}
use llama_swap.Config.Types.{
  Value, str, scalar, null, array, mapping, Items, nil, cons, Fields, end, field, MacroEntry,
  MacroList, macro_name_too_long, macro_name_invalid, macro_value_too_long, macro_self_reference,
  macro_invalid_type, macro_reserved, Result, ok, err, ◌>>=◌, ◌>>◌, guard,
}

-- `MacroList.Get`.
unfoldable pub get_macro : MacroList → Text → Option Value
get_macro [] name = none
get_macro (e ∷ es) name = if text_eq e.name name then some e.value else get_macro es name

abbrev pub is_letter : ℕ → Bool
is_letter c = (leb b'a' c && leb c b'z') || (leb b'A' c && leb c b'Z')

abbrev pub is_digit : ℕ → Bool
is_digit c = leb b'0' c && leb c b'9'

-- `[a-zA-Z0-9_-]`
abbrev pub is_macro_char : ℕ → Bool
is_macro_char c = is_letter c || (is_digit c || ((c == b'_') || (c == b'-')))

-- `macroNameRegex`: one or more such characters, and nothing else.
unfoldable pub macro_name_ok : Text → Bool
macro_name_ok name = not (text_eq name []) && all is_macro_char name

abbrev pub slug : Text → Text
slug name = codes "${" ++ (name ++ codes "}")

unfoldable pub validate_value : Text → Value → Result (Unit {0})
validate_value name (str v) =
    if leb 1024 (length v)
    then err (macro_value_too_long name)
    else guard (not (contains_text v (slug name))) (macro_self_reference name)
validate_value name (scalar t) = ok tt
validate_value name null = err (macro_invalid_type name)
validate_value name (array xs) = err (macro_invalid_type name)
validate_value name (mapping fs) = err (macro_invalid_type name)

abbrev pub reserved_names : List Text
reserved_names = codes "PORT" ∷ codes "MODEL_ID" ∷ []

unfoldable pub validate_macro : Text → Value → Result (Unit {0})
validate_macro name value = do
  guard (ltb (length name) 64) (macro_name_too_long name)
  guard (macro_name_ok name) (macro_name_invalid name)
  validate_value name value
  guard (not (contains reserved_names name)) (macro_reserved name)

unfoldable pub validate_macros : MacroList → Result (Unit {0})
validate_macros [] = ok tt
validate_macros (e ∷ es) = validate_macro e.name e.value >>= λ _. validate_macros es

-- One model macro put into the merged list: over the first entry of its name, or at the end.
unfoldable pub override : MacroEntry → MacroList → MacroList
override e [] = e ∷ []
override e (x ∷ xs) = if text_eq x.name e.name then e ∷ xs else x ∷ override e xs

unfoldable pub override_all : MacroList → MacroList → MacroList
override_all merged [] = merged
override_all merged (e ∷ es) = override_all (override e merged) es

-- `mergedMacros`: the model's name, the global macros, the model's own over them.
unfoldable pub merge_macros : Text → MacroList → MacroList → MacroList
merge_macros model_id globals own =
    override_all (record { name = codes "MODEL_ID"; value = str model_id } ∷ globals) own

-- `fmt.Sprintf("%v", value)` for what `validateMacro` lets through; the others do not get here.
unfoldable pub macro_text : Value → Text
macro_text (str t) = t
macro_text (scalar t) = t
macro_text null = []
macro_text (array xs) = []
macro_text (mapping fs) = []

-- `substituteMacroInValue`, at a text: the whole text may be the macro, which keeps the value's type.
unfoldable pub substitute_text : Text → Value → Text → Value
substitute_text name value v =
    if text_eq v (slug name)
    then value
    else if contains_text v (slug name)
    then str (replace_all v (slug name) (macro_text value))
    else str v

unfoldable mutual
  unfolding substitute_text

  pub substitute_value : Text → Value → Value → Value
  substitute_value name value (str v) = substitute_text name value v
  substitute_value name value (scalar t) = scalar t
  substitute_value name value null = null
  substitute_value name value (array xs) = array (substitute_items name value xs)
  substitute_value name value (mapping fs) = mapping (substitute_fields name value fs)

  pub substitute_items : Text → Value → Items → Items
  substitute_items name value nil = nil
  substitute_items name value (cons x xs) =
      cons (substitute_value name value x) (substitute_items name value xs)

  pub substitute_fields : Text → Value → Fields → Fields
  substitute_fields name value end = end
  substitute_fields name value (field k v fs) =
      field k (substitute_value name value v) (substitute_fields name value fs)

-- The name at the start of a text, up to a closing brace.
unfoldable pub name_to_brace : Text → Option Text
name_to_brace [] = none
name_to_brace (c ∷ s) = elim (c == b'}') [
  | true ↦ some []
  | false ↦ elim (is_macro_char c) [
    | true ↦ elim (name_to_brace s) [ none ↦ none | some n ↦ some (c ∷ n) ]
    | false ↦ none
  ]
]

-- `macroPatternRegex` at the start of a text; the name is not empty.
abbrev pub nonempty : Option Text → Option Text
nonempty none = none
nonempty (some []) = none
nonempty (some (c ∷ n)) = some (c ∷ n)

unfoldable pub macro_here : Text → Option Text
macro_here s = if has_prefix s (codes "${") then nonempty (name_to_brace (drop 2 s)) else none

-- `macroPatternRegex.FindAllStringSubmatch`: the names, from left to right. Matches cannot overlap,
-- as a name has no `$`.
abbrev pub or_next : Option Text → List Text → List Text
or_next none rest = rest
or_next (some n) rest = n ∷ rest

unfoldable pub find_macros : Text → List Text
find_macros [] = []
find_macros (c ∷ s) = or_next (macro_here (c ∷ s)) (find_macros s)
