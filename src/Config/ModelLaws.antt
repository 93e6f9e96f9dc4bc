-- ===== src/Config/ModelLaws.antt =====
-- proxy/config/config.go: what the loop over the models guarantees.
use llama_swap.Base.{
  ℕ, ◌+◌, ◌≡◌, refl, sym, ap, ◌∙◌, subst, inl, inr, List, [], ◌∷◌, ◌++◌, Bool, true, false, arith,
  Bool-cases, all,
}
use llama_swap.Base.Text.{Text, codes, text_eq, contains_text, replace_all}
use llama_swap.Base.Decimal.{decimal}
use llama_swap.Config.Types.{
  Value, str, scalar, null, array, mapping, Items, nil, cons, Fields, end, field, ModelConfig,
  ConfigError, ok, err, guard,
}
use llama_swap.Config.Results.{bind_ok, ok_injective}
use llama_swap.Config.Macros.{find_macros, validate_macros}
use llama_swap.Config.Env.{find_env}
use llama_swap.Config.Models.{
  check_left, check_env_left, check_text, check_value, check_items, check_fields, check_entries,
  check_model, Globals, expand, port_slug, put_port, assign_port, process_model, in_model_result,
}

abbrev pub is_pid : Text → Bool
is_pid n = text_eq n (codes "PID")

check_left_none :
    (id : Text) (names : List Text) {u : Unit {0}} → check_left id false names ≡ ok u → names ≡ []
unfolding check_left
check_left_none id [] h = refl
check_left_none id (n ∷ names) h = cc

check_left_pid :
    (id : Text) (names : List Text) {u : Unit {0}}
    → check_left id true names ≡ ok u
    → all is_pid names ≡ true
unfolding check_left
check_left_pid id [] h = refl
check_left_pid id (n ∷ names) h = ground (arith, check_left_pid id names {u = tt})

-- The texts of the metadata.
abbrev mutual
  pub texts_of : Value → List Text
  texts_of (str s) = s ∷ []
  texts_of (array xs) = texts_of_items xs
  texts_of (mapping fs) = texts_of_fields fs
  texts_of _ = []

  pub texts_of_items : Items → List Text
  texts_of_items nil = []
  texts_of_items (cons x xs) = texts_of x ++ texts_of_items xs

  pub texts_of_fields : Fields → List Text
  texts_of_fields end = []
  texts_of_fields (field k v fs) = texts_of v ++ texts_of_fields fs

-- Neither a macro nor a reference to the environment is left in some texts.
abbrev pub AllExpanded : List Text → Type 0
AllExpanded [] = Unit
AllExpanded (s ∷ ss) = ((find_macros s ≡ []) × (find_env s ≡ [])) × AllExpanded ss

AllExpanded-append : (ss ts : List Text) → AllExpanded ss → AllExpanded ts → AllExpanded (ss ++ ts)
AllExpanded-append [] ts a b = b
AllExpanded-append (s ∷ ss) ts (h, a) b = (h, AllExpanded-append ss ts a b)

check_env_left_none :
    (id : Text) (names : List Text) {u : Unit {0}} → check_env_left id names ≡ ok u → names ≡ []
check_env_left_none id [] h = refl
check_env_left_none id (n ∷ names) h = cc

mutual
  unfolding check_value check_text check_items check_entries

  check_value-AllExpanded :
      (id : Text) (v : Value) {u : Unit {0}} → check_value id v ≡ ok u → AllExpanded (texts_of v)
  check_value-AllExpanded id (str s) h =
      let (_, a, b) = bind_ok (check_left id false (find_macros s)) _ h in
      ((check_left_none id (find_macros s) a, check_env_left_none id (find_env s) b), tt)
  check_value-AllExpanded id (scalar t) h = tt
  check_value-AllExpanded id null h = tt
  check_value-AllExpanded id (array xs) h = check_items-AllExpanded id xs h
  check_value-AllExpanded id (mapping fs) h = check_entries-AllExpanded id fs h

  check_items-AllExpanded :
      (id : Text) (xs : Items) {u : Unit {0}}
      → check_items id xs ≡ ok u
      → AllExpanded (texts_of_items xs)
  check_items-AllExpanded id nil h = tt
  check_items-AllExpanded id (cons x xs) h =
      let (_, a, b) = bind_ok (check_value id x) _ h in
      AllExpanded-append (texts_of x) (texts_of_items xs) (check_value-AllExpanded id x a)
        (check_items-AllExpanded id xs b)

  check_entries-AllExpanded :
      (id : Text) (fs : Fields) {u : Unit {0}}
      → check_entries id fs ≡ ok u
      → AllExpanded (texts_of_fields fs)
  check_entries-AllExpanded id end h = tt
  check_entries-AllExpanded id (field k v fs) h =
      let (_, a, b) = bind_ok (check_value id v) _ h in
      AllExpanded-append (texts_of v) (texts_of_fields fs) (check_value-AllExpanded id v a)
        (check_entries-AllExpanded id fs b)

-- No macro is left in the fields that are checked, save `${PID}` in the stop command, and neither
-- a macro nor a reference to the environment in the texts of the metadata.
pub record Expanded (m : ModelConfig) : Type 0 where
  pub cmd : find_macros m.cmd ≡ []
  pub cmd_stop : all is_pid (find_macros m.cmd_stop) ≡ true
  pub proxy : find_macros m.proxy ≡ []
  pub check_endpoint : find_macros m.check_endpoint ≡ []
  pub strip_params : find_macros m.filters.strip_params ≡ []
  pub metadata : AllExpanded (texts_of_fields m.metadata)

check_fields-Expanded :
    (id : Text) (m : ModelConfig) {u : Unit {0}}
    → check_fields id m ≡ ok u
    → AllExpanded (texts_of_fields m.metadata)
    → Expanded m
unfolding check_fields
check_fields-Expanded id m h metadata =
    let (_, a, h₁) = bind_ok (check_left id false (find_macros m.cmd)) _ h in
    let (_, b, h₂) = bind_ok (check_left id true (find_macros m.cmd_stop)) _ h₁ in
    let (_, c, h₃) = bind_ok (check_left id false (find_macros m.proxy)) _ h₂ in
    let (_, d, e) = bind_ok (check_left id false (find_macros m.check_endpoint)) _ h₃ in
    record {
      cmd = check_left_none id (find_macros m.cmd) a;
      cmd_stop = check_left_pid id (find_macros m.cmd_stop) b;
      proxy = check_left_none id (find_macros m.proxy) c;
      check_endpoint = check_left_none id (find_macros m.check_endpoint) d;
      strip_params = check_left_none id (find_macros m.filters.strip_params) e;
      metadata = metadata;
    }

check_model_ok :
    (g : Globals) (id : Text) (r s : ModelConfig × ℕ)
    → check_model g id r ≡ ok s
    → Expanded s.0 × (s.0.cmd ≡ r.0.cmd) × (s.1 ≡ r.1)
unfolding check_model
check_model_ok g id (m, next) s h =
    let (_, a, h₁) = bind_ok (check_fields id m) _ h in
    let (_, b, h₂) = bind_ok (check_entries id m.metadata) _ h₁ in
    let (_, c, h₃) = bind_ok (guard (g.url_ok m.proxy) _) _ h₂ in
    let e = ok_injective h₃ in
    let x = check_fields-Expanded id m a (check_entries-AllExpanded id m.metadata b) in
    subst (λ (t : ModelConfig × ℕ). Expanded t.0 × (t.0.cmd ≡ m.cmd) × (t.1 ≡ next)) e
      (
        record {
          cmd = x.cmd;
          cmd_stop = x.cmd_stop;
          proxy = x.proxy;
          check_endpoint = x.check_endpoint;
          strip_params = x.strip_params;
          metadata = x.metadata;
        },
        refl,
        refl,
      )

-- The command of a model uses the port.
abbrev pub uses_port : Globals → Text → ModelConfig → Bool
uses_port g id m = contains_text (expand g id m).cmd port_slug

abbrev pub one_if : Bool → ℕ
one_if true = 1
one_if false = 0

abbrev pub with_port : Bool → ℕ → Text → Text
with_port true port cmd = replace_all cmd port_slug (decimal port)
with_port false port cmd = cmd

-- What a pair equal to another has in its parts.
parts : {r s : ModelConfig × ℕ} → s ≡ r → (r.1 ≡ s.1) × (r.0.cmd ≡ s.0.cmd)
parts e = (ap (λ (t : ModelConfig × ℕ). t.1) (sym e), ap (λ (t : ModelConfig × ℕ). t.0.cmd) (sym e))

by_error : {e : ConfigError} {r : ModelConfig × ℕ} → err e ≡ ok r → ⊥
by_error h = cc

assign_port_ok :
    (id : Text) (m : ModelConfig) (port : ℕ) (r : ModelConfig × ℕ)
    → assign_port id m port ≡ ok r
    → let b = contains_text m.cmd port_slug in
      (r.1 ≡ port + one_if b) × (r.0.cmd ≡ with_port b port m.cmd)
unfolding assign_port put_port
assign_port_ok id m port r h = elim (Bool-cases (contains_text m.cmd port_slug)) [
  | inl e ↦ rw e (parts (ok_injective (rw e at h)))
  | inr e ↦ rw e (elim (Bool-cases (contains_text m.proxy port_slug)) [
    | inl f ↦ absurd (by_error (rw (e, f) at h))
    | inr f ↦ (let (a, b) = parts (ok_injective (rw (e, f) at h)) in (omega (arith, a), b))
  ])
]

-- A round of the loop that succeeds leaves no macro in the model's `cmd`, `proxy`, `checkEndpoint`
-- and `stripParams`, only `${PID}` in its `cmdStop`, and neither a macro nor a reference to the
-- environment in the texts of its metadata. It takes the next port exactly if the expanded command uses `${PORT}`: that command then
-- names this port, and the following model gets a greater one.
pub process_model_ok :
    (g : Globals) (id : Text) (m : ModelConfig) (port : ℕ) (r : ModelConfig × ℕ)
    → process_model g id m port ≡ ok r
    → Expanded r.0
      × (r.1 ≡ port + one_if (uses_port g id m))
      × (r.0.cmd ≡ with_port (uses_port g id m) port (expand g id m).cmd)
unfolding process_model
process_model_ok g id m port r h =
    let (_, a, h₁) = bind_ok (in_model_result id (validate_macros m.macros)) _ h in
    let (q, b, h₂) = bind_ok (assign_port id (expand g id m) port) _ h₁ in
    let (n, c) = assign_port_ok id (expand g id m) port q b in
    let (x, d, e) = check_model_ok g id q r h₂ in (x, e ∙ n, d ∙ c)
