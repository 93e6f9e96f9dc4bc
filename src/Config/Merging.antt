-- ===== src/Config/Merging.antt =====
-- proxy/config/config.go: the macros that a model is expanded with.
use llama_swap.Base.{◌≡◌, refl, ◌∙◌, ap, [], ◌∷◌, Option, none, some, if◌then◌else◌, arith}
use llama_swap.Base.Text.{Text, codes, text_eq, text_eq_iff}
use llama_swap.Config.Types.{Value, str, MacroEntry, MacroList}
use llama_swap.Config.Macros.{get_macro, override, override_all, merge_macros}

abbrev pub or_first : Option Value → Option Value → Option Value
or_first none b = b
or_first (some v) b = some v

-- The last value that some macros give a name.
abbrev pub last_macro : MacroList → Text → Option Value
last_macro [] name = none
last_macro (e ∷ es) name =
    or_first (last_macro es name) (if text_eq e.name name then some e.value else none)

get_macro-override :
    (e : MacroEntry) (merged : MacroList) (name : Text)
    → get_macro (override e merged) name
      ≡ or_first (if text_eq e.name name then some e.value else none) (get_macro merged name)
unfolding get_macro override
get_macro-override e [] name = ground arith
get_macro-override e (x ∷ xs) name = ground (
  arith,
  get_macro-override e xs name,
  text_eq_iff e.name name,
  text_eq_iff x.name name,
  text_eq_iff x.name e.name,
)

or_first_assoc : (a b c : Option Value) → or_first a (or_first b c) ≡ or_first (or_first a b) c
or_first_assoc none b c = refl
or_first_assoc (some v) b c = refl

get_macro-override_all :
    (merged own : MacroList) (name : Text)
    → get_macro (override_all merged own) name
      ≡ or_first (last_macro own name) (get_macro merged name)
unfolding override_all
get_macro-override_all merged [] name = refl
get_macro-override_all merged (e ∷ es) name =
    get_macro-override_all (override e merged) es name
    ∙ ap (or_first (last_macro es name)) (get_macro-override e merged name)
    ∙ or_first_assoc (last_macro es name) (if text_eq e.name name then some e.value else none)
        (get_macro merged name)

-- In the list that a model is expanded with, a name has the value of the model's own macro of that
-- name, the last one if there are several; else, for `MODEL_ID`, the model's name; else the value of
-- the first global macro of that name.
pub get_macro-merge_macros :
    (id : Text) (globals own : MacroList) (name : Text)
    → get_macro (merge_macros id globals own) name
      ≡ or_first
          (last_macro own name)
          (if text_eq (codes "MODEL_ID") name then some (str id) else get_macro globals name)
unfolding merge_macros get_macro
get_macro-merge_macros id globals own name =
    get_macro-override_all (record { name = codes "MODEL_ID"; value = str id } ∷ globals) own name
