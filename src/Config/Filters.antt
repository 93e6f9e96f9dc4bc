-- ===== src/Config/Filters.antt =====
-- proxy/config/filters.go: the parameters that a filter strips from a request or sets in it.
use llama_swap.Base.{
  ◌≡◌, refl, ◌∙◌, inl, inr, List, [], ◌∷◌, ◌++◌, none, Bool, false, if◌then◌else◌, ◌||◌, ◌&&◌, not,
  arith, Bool-cases,
}
use llama_swap.Base.Text.{Text, codes, text_eq, text_eq_iff, contains, split, trim_space, trim_left}
use llama_swap.Base.Dict.{Dict, lookup}
use llama_swap.Base.Sort.{
  sort_texts, IsSorted, sort_texts-IsSorted, contains-sort_texts, Distinct, Distinct-sort_texts,
  Distinct-append_one, contains-append,
}
use llama_swap.Config.Types.{Value, Filters}

abbrev pub protected_params : List Text
protected_params = codes "model" ∷ []

-- One round of the loop over the parts; `seen` and `cleaned` hold the same texts, so one list stands
-- for both.
unfoldable pub clean_param : List Text → Text → List Text
clean_param cleaned trimmed =
    if contains protected_params trimmed || (text_eq trimmed [] || contains cleaned trimmed)
    then cleaned
    else cleaned ++ (trimmed ∷ [])

unfoldable pub clean_params : List Text → List Text → List Text
clean_params cleaned [] = cleaned
clean_params cleaned (param ∷ params) = clean_params (clean_param cleaned (trim_space param)) params

-- `SanitizedStripParams`; `nil` is the empty list.
unfoldable pub sanitized_strip_params : Filters → List Text
sanitized_strip_params f =
    if text_eq f.strip_params []
    then []
    else sort_texts (clean_params [] (split b',' f.strip_params))

-- `SanitizedSetParams`: the entries that are not protected, and their keys in order.
unfoldable pub unprotected : Dict Value → Dict Value
unprotected [] = []
unprotected ((k, v) ∷ m) =
    let rest = unprotected m in if contains protected_params k then rest else (k, v) ∷ rest

abbrev pub keys_of : Dict Value → List Text
keys_of [] = []
keys_of ((k, v) ∷ m) = k ∷ keys_of m

unfoldable pub sanitized_set_params : Filters → Dict Value × List Text
sanitized_set_params f = let kept = unprotected f.set_params in (kept, sort_texts (keys_of kept))

-- A part of the list, trimmed.
abbrev pub contains_trimmed : List Text → Text → Bool
contains_trimmed [] t = false
contains_trimmed (p ∷ ps) t = text_eq (trim_space p) t || contains_trimmed ps t

-- A parameter that may be stripped.
abbrev pub may_strip : Text → Bool
may_strip t = not (contains protected_params t) && not (text_eq t [])

contains-clean_param :
    (cleaned : List Text) (u t : Text)
    → contains (clean_param cleaned u) t ≡ (contains cleaned t || (may_strip u && text_eq u t))
unfolding clean_param contains
contains-clean_param cleaned u t =
    ground (arith, text_eq_iff u t, contains-append cleaned (u ∷ []) t)

contains-clean_params :
    (cleaned params : List Text) (t : Text)
    → contains (clean_params cleaned params) t
      ≡ (contains cleaned t || (may_strip t && contains_trimmed params t))
unfolding clean_params
contains-clean_params cleaned [] t = ground arith
contains-clean_params cleaned (param ∷ params) t =
    let u = trim_space param in
    contains-clean_params (clean_param cleaned u) params t
    ∙ ground (arith, text_eq_iff u t, contains-clean_param cleaned u t)

Distinct-clean_params :
    (cleaned params : List Text) → Distinct cleaned → Distinct (clean_params cleaned params)
unfolding clean_params clean_param
Distinct-clean_params cleaned [] d = d
Distinct-clean_params cleaned (param ∷ params) d =
    let u = trim_space param in
    Distinct-clean_params (clean_param cleaned u) params
      (ground (arith, Distinct-append_one cleaned u))

no_params :
    (s t : Text) → s ≡ [] → contains [] t ≡ (may_strip t && contains_trimmed (split b',' s) t)
unfolding contains split trim_space trim_left
no_params s t e = rw e (ground (arith, text_eq_iff [] t, text_eq_iff t []))

no_cleaned : (t : Text) (b : Bool) → (contains [] t || b) ≡ b
unfolding contains
no_cleaned t b = refl

-- `SanitizedStripParams` returns, in order and without repetition, exactly the texts between the
-- commas, trimmed, that are neither empty nor protected.
pub sanitized_strip_params_lem :
    (f : Filters) (t : Text)
    → IsSorted (sanitized_strip_params f)
      × Distinct (sanitized_strip_params f)
      × (contains (sanitized_strip_params f) t
          ≡ (may_strip t && contains_trimmed (split b',' f.strip_params) t))
unfolding sanitized_strip_params
sanitized_strip_params_lem f t = elim (Bool-cases (text_eq f.strip_params [])) [
  | inl e ↦ rw e (tt, tt, no_params f.strip_params t ((text_eq_iff f.strip_params []).0 e))
  | inr e ↦
      let found = clean_params [] (split b',' f.strip_params) in
      rw e (
        sort_texts-IsSorted found,
        Distinct-sort_texts found (Distinct-clean_params [] (split b',' f.strip_params) tt),
        contains-sort_texts t found
            ∙ contains-clean_params [] (split b',' f.strip_params) t
            ∙ no_cleaned t (may_strip t && contains_trimmed (split b',' f.strip_params) t),
      )
]

lookup-unprotected :
    (m : Dict Value) (k : Text)
    → lookup k (unprotected m) ≡ (if contains protected_params k then none else lookup k m)
unfolding lookup unprotected
lookup-unprotected [] k = ground arith
lookup-unprotected ((j, v) ∷ m) k = ground (arith, text_eq_iff j k, lookup-unprotected m k)

-- `SanitizedSetParams` gives every parameter that is not protected the value that the filter has for
-- it, and no other one; the keys come in order.
pub sanitized_set_params_lem :
    (f : Filters) (k : Text)
    → (lookup k (sanitized_set_params f).0
        ≡ (if contains protected_params k then none else lookup k f.set_params))
      × IsSorted (sanitized_set_params f).1
unfolding sanitized_set_params
sanitized_set_params_lem f k =
    (lookup-unprotected f.set_params k, sort_texts-IsSorted (keys_of (unprotected f.set_params)))
