-- ===== src/Manager/Cors.antt =====
-- proxy/sanitize_cors.go: the names of request headers that a preflight answer allows.
use llama_swap.Base.{
  ℕ, ◌≡◌, refl, sym, ◌∙◌, ap, inl, inr, List, [], ◌∷◌, ◌++◌, Bool, true, false, if◌then◌else◌, ◌||◌,
  ◌&&◌, not, leb, ◌==◌, arith, Bool-cases, all, append-nil, map, filterb,
}
use mathlib.Core.List.{reverse, reverse-cons, reverse-reverse}
use llama_swap.Base.Text.{
  Text, codes, text_eq, split, push_head, join, trim_space, trim_left, is_space,
}

abbrev pub one_of : Text → ℕ → Bool
one_of [] c = false
one_of (d ∷ s) c = (d == c) || one_of s c

unfoldable pub is_token_char : ℕ → Bool
is_token_char c =
    (leb 97 c && leb c 122)
    || ((leb 65 c && leb c 90) || ((leb 48 c && leb c 57) || one_of (codes "!#$%&'*+-.^_`|~") c))

-- The loop over the parts.
unfoldable pub valid_parts : List Text → List Text
valid_parts [] = []
valid_parts (p ∷ parts) =
    let rest = valid_parts parts in
    let v = trim_space p in
    if text_eq v [] then rest else if all is_token_char v then v ∷ rest else rest

unfoldable pub sanitize_access_control_request_header_values : Text → Text
sanitize_access_control_request_header_values values =
    join (codes ", ") (valid_parts (split 44 values))

all-append : (p : ℕ → Bool) (s t : Text) → all p s ≡ true → all p t ≡ true → all p (s ++ t) ≡ true
all-append p [] t a b = b
all-append p (c ∷ s) t a b = ground (arith, all-append p s t)

all-reverse : (p : ℕ → Bool) (s : Text) → all p s ≡ true → all p (reverse s) ≡ true
all-reverse p [] a = refl
all-reverse p (c ∷ s) a =
    let (h, t) : (p c ≡ true) × (all p s ≡ true) = ground arith in
    rw (reverse-cons c s) (all-append p (reverse s) (c ∷ []) (all-reverse p s t) (ground arith))

token_visible : (c : ℕ) → is_token_char c ≡ true → (is_space c ≡ false) × ((c == 44) ≡ false)
unfolding is_token_char
token_visible c h = ground arith

trim_left-token : (s : Text) → all is_token_char s ≡ true → trim_left s ≡ s
unfolding trim_left
trim_left-token [] a = refl
trim_left-token (c ∷ s) a =
    let h : is_token_char c ≡ true = ground arith in rw ((token_visible c h).0) refl

trim_space-token : (s : Text) → all is_token_char s ≡ true → trim_space s ≡ s
unfolding trim_space
trim_space-token s a =
    rw (trim_left-token s a, trim_left-token (reverse s) (all-reverse is_token_char s a))
      (reverse-reverse s)

-- A text put before the first of some parts.
prepend : Text → List Text → List Text
prepend t [] = t ∷ []
prepend t (u ∷ us) = (t ++ u) ∷ us

push_head-prepend :
    (c : ℕ) (t : Text) (ps : List Text) → push_head c (prepend t ps) ≡ prepend (c ∷ t) ps
unfolding prepend
push_head-prepend c t [] = refl
push_head-prepend c t (u ∷ us) = refl

split-cons : (s : Text) → (t : Text) × (ts : List Text) × (split 44 s ≡ t ∷ ts)
unfolding split
split-cons [] = ([], [], refl)
split-cons (c ∷ s) =
    let (t, ts, e) = split-cons s in
    elim (Bool-cases (c == 44)) [
      | inl h ↦ ([], split 44 s, rw h refl)
      | inr h ↦ (c ∷ t, ts, rw (h, e) refl)
    ]

split-token : (t s : Text) → all is_token_char t ≡ true → split 44 (t ++ s) ≡ prepend t (split 44 s)
unfolding split prepend
split-token [] s a = let (t, ts, e) = split-cons s in rw e refl
split-token (c ∷ t) s a =
    let h : is_token_char c ≡ true = ground arith in
    let rest : all is_token_char t ≡ true = ground arith in
    rw ((token_visible c h).1, split-token t s rest) (push_head-prepend c t (split 44 s))

-- The names of a header: not empty, of token characters.
abbrev pub is_name : Text → Bool
is_name t = not (text_eq t []) && all is_token_char t

valid_parts-names : (ps : List Text) → all is_name (valid_parts ps) ≡ true
unfolding valid_parts
valid_parts-names [] = refl
valid_parts-names (p ∷ ps) = ground (arith, valid_parts-names ps)

valid_parts-blank : (ps : List Text) → valid_parts (push_head 32 ps) ≡ valid_parts ps
unfolding valid_parts trim_space trim_left text_eq
valid_parts-blank [] = refl
valid_parts-blank (p ∷ ps) = refl

valid_parts-name :
    (t : Text) (ps : List Text)
    → is_name t ≡ true
    → valid_parts (prepend t ([] ∷ ps)) ≡ t ∷ valid_parts ps
unfolding valid_parts prepend
valid_parts-name t ps h =
    let filled : text_eq t [] ≡ false = ground arith in
    let tokens : all is_token_char t ≡ true = ground arith in
    rw (append-nil, trim_space-token t tokens, filled, tokens) refl

-- Splitting what was joined.
split-join :
    (ts : List Text) → all is_name ts ≡ true → valid_parts (split 44 (join (codes ", ") ts)) ≡ ts
unfolding split join valid_parts
split-join [] a = unfold valid_parts trim_space trim_left text_eq in refl
split-join (t ∷ []) a =
    let name : is_name t ≡ true = ground arith in
    let tokens : all is_token_char t ≡ true = ground arith in
    let e : split 44 t ≡ prepend t ([] ∷ []) =
      ap (split 44) (sym (append-nil t)) ∙ split-token t [] tokens in
    rw e (valid_parts-name t [] name)
split-join (t ∷ (u ∷ ts)) a =
    let name : is_name t ≡ true = ground arith in
    let tokens : all is_token_char t ≡ true = ground arith in
    let names : all is_name (u ∷ ts) ≡ true = ground arith in
    let rest = join (codes ", ") (u ∷ ts) in
    rw (split-token t (44 ∷ (32 ∷ rest)) tokens) (
      valid_parts-name t (push_head 32 (split 44 rest)) name
      ∙ ap (◌∷◌ t) (valid_parts-blank (split 44 rest) ∙ split-join (u ∷ ts) names))

-- The names that a header lists: what stands between its commas, trimmed, that is a name.
abbrev pub names_of : Text → List Text
names_of values = filterb is_name (map trim_space (split 44 values))

valid_parts-filter :
    (parts : List Text) → valid_parts parts ≡ filterb is_name (map trim_space parts)
unfolding valid_parts
valid_parts-filter [] = refl
valid_parts-filter (p ∷ parts) = ground (arith, valid_parts-filter parts)

-- The value of the answer's header lists exactly the names of the request's header, in their order:
-- the trimmed parts between the commas that are not empty and made of token characters. Every other
-- part is dropped alone. The value holds these names, with a comma and a blank between two of them.
pub sanitize_names :
    (values : Text)
    → (names_of (sanitize_access_control_request_header_values values) ≡ names_of values)
      × (sanitize_access_control_request_header_values values ≡ join (codes ", ") (names_of values))
unfolding sanitize_access_control_request_header_values
sanitize_names values =
    let parts = split 44 values in
    let h = valid_parts-names parts in
    (
      sym (valid_parts-filter (split 44 (join (codes ", ") (valid_parts parts))))
          ∙ split-join (valid_parts parts) h
          ∙ valid_parts-filter parts,
      ap (join (codes ", ")) (valid_parts-filter parts),
    )
