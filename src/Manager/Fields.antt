-- ===== src/Manager/Fields.antt =====
-- proxy/proxymanager.go: the fields of the JSON body that `proxyInferenceHandler` sends on.
use llama_swap.Base.{
  ◌≡◌, refl, ◌∙◌, ap, inl, inr, List, [], ◌∷◌, Option, none, some, Bool, true, false, if◌then◌else◌,
  ◌&&◌, not, arith, all, Bool-cases,
}
use llama_swap.Base.Text.{Text, codes, text_eq, text_eq_iff, contains, split}
use llama_swap.Base.Dict.{Dict, lookup}
use llama_swap.Base.Sort.{contains-sort_texts}
use llama_swap.Config.Types.{Value, str, Filters}
use llama_swap.Config.Filters.{
  protected_params, sanitized_strip_params, sanitized_set_params, keys_of, contains_trimmed,
  may_strip, sanitized_strip_params_lem, sanitized_set_params_lem,
}
use llama_swap.Manager.Peers.{is_some}
use llama_swap.Manager.Routes.{Manager, Target}
use llama_swap.Manager.Bodies.{
  BodyJson, Documented, bind-eq-some, or_null, filters_of, use_name_of, strip_all, set_all, rename,
  filter_body, rewrite_body,
}

-- What stands under a name in the body that is sent, by what stood there.
abbrev pub or_value : Option Value → Option Value → Option Value
or_value none old = old
or_value (some v) old = some v

abbrev pub renamed : Text → Option Value → Option Value
renamed use_name old = if text_eq use_name [] then old else some (str use_name)

abbrev pub sent_value : Filters → Text → Text → Option Value → Option Value
sent_value f use_name name old =
    if contains protected_params name
    then renamed use_name old
    else or_value (lookup name f.set_params)
        (if may_strip name && contains_trimmed (split b',' f.strip_params) name then none else old)

-- The names that a filter strips or sets are no compound paths.
pub record PlainFilters (is_plain : Text → Bool) (f : Filters) : Type 0 where
  pub model_key : is_plain (codes "model") ≡ true
  pub strip_names : all is_plain (sanitized_strip_params f) ≡ true
  pub set_names : all is_plain (sanitized_set_params f).1 ≡ true

contains-keys_of : (m : Dict Value) (n : Text) → contains (keys_of m) n ≡ is_some (lookup n m)
unfolding contains lookup
contains-keys_of [] n = refl
contains-keys_of ((k, v) ∷ m) n = ground (arith, contains-keys_of m n)

some-or_null :
    (o old : Option Value) → (if is_some o then some (or_null o) else old) ≡ or_value o old
some-or_null none old = refl
some-or_null (some v) old = refl

by_protection :
    (protected x y : Bool) (set old new : Option Value)
    → or_value
        (if protected then none else set)
        (if (not protected && x) && y then none else if protected then new else old)
      ≡ (if protected then new else or_value set (if (not protected && x) && y then none else old))
by_protection true x y set old new = refl
by_protection false x y set old new = refl

module _ (j : BodyJson) {is_plain : Text → Bool} (d : Documented j is_plain) {n : Text}
    (h : is_plain n ≡ true) where
  get-strip_all :
      (params : List Text) (b : Text) {c : Text}
      → all is_plain params ≡ true
      → strip_all j params b ≡ some c
      → j.get c n ≡ (if contains params n then none else j.get b n)
  unfolding strip_all contains
  get-strip_all [] b a e = cc
  get-strip_all (p ∷ params) b a e =
      let (mid, s, later) = bind-eq-some (j.delete b p) (λ c. strip_all j params c) e in
      elim (Bool-cases (is_plain p)) [
        | inl plain ↦
            get-strip_all params mid (rw plain at a) later
            ∙ ground (arith, d.get_delete b p n plain h s)
        | inr compound ↦ cc
      ]

  get-set_all :
      (values : Dict Value) (keys : List Text) (b : Text) {c : Text}
      → all is_plain keys ≡ true
      → set_all j values keys b ≡ some c
      → j.get c n ≡ (if contains keys n then some (or_null (lookup n values)) else j.get b n)
  unfolding set_all contains
  get-set_all values [] b a e = cc
  get-set_all values (k ∷ keys) b a e =
      let v = or_null (lookup k values) in
      let (mid, s, later) = bind-eq-some (j.set b k v) (λ c. set_all j values keys c) e in
      elim (Bool-cases (is_plain k)) [
        | inl plain ↦
            get-set_all values keys mid (rw plain at a) later
            ∙ ground (arith, d.get_set b k n v plain h s, text_eq_iff k n)
        | inr compound ↦ cc
      ]

  get-rename :
      (use_name b : Text) {c : Text}
      → is_plain (codes "model") ≡ true
      → rename j use_name b ≡ some c
      → j.get c n
        ≡ (if contains protected_params n then renamed use_name (j.get b n) else j.get b n)
  unfolding rename contains
  get-rename use_name b plain e = elim (Bool-cases (text_eq use_name [])) [
    | inl empty ↦ (let same = rw empty at e in rw empty (ground (arith, same)))
    | inr given ↦
        (let put = rw given at e in
          rw given (ground (arith, d.get_set b (codes "model") n (str use_name) plain h put)))
  ]

  get-filter_body :
      (f : Filters) (b : Text) {c : Text}
      → PlainFilters is_plain f
      → filter_body j f b ≡ some c
      → j.get c n
        ≡ or_value
            (lookup n (sanitized_set_params f).0)
            (if contains (sanitized_strip_params f) n then none else j.get b n)
  unfolding filter_body
  get-filter_body f b p e =
      let params = sanitized_strip_params f in
      let (values, keys) = sanitized_set_params f in
      let (mid, s, later) = bind-eq-some (strip_all j params b) (λ c. set_all j values keys c) e in
      get-set_all values keys mid p.set_names later
      ∙ rw (contains-sort_texts n (keys_of values), contains-keys_of values n)
          (some-or_null (lookup n values) (j.get mid n)
            ∙ ap (or_value (lookup n values)) (get-strip_all params b p.strip_names s))

  -- What `proxyInferenceHandler` sends has, under each plain name, the model name for the upstream at
  -- `model`, else the value that the filter sets, else nothing if the filter strips the name, and
  -- else what the request had.
  pub get-rewrite_body :
      (pm : Manager) (target : Target) (b : Text) {c : Text}
      → PlainFilters is_plain (filters_of pm target)
      → rewrite_body j pm target b ≡ some c
      → j.get c n ≡ sent_value (filters_of pm target) (use_name_of target) n (j.get b n)
  unfolding rewrite_body
  get-rewrite_body pm target b p e =
      let f = filters_of pm target in
      let use_name = use_name_of target in
      let (mid, s, later) = bind-eq-some (rename j use_name b) (λ c. filter_body j f c) e in
      get-filter_body f mid p later
      ∙ rw
          (
            (sanitized_strip_params_lem f n).2,
            (sanitized_set_params_lem f n).0,
            get-rename use_name b p.model_key s,
          )
          (by_protection (contains protected_params n) _ _ (lookup n f.set_params) _ _)
