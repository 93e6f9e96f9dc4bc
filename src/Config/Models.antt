-- ===== src/Config/Models.antt =====
-- proxy/config/config.go: the loop of `LoadConfigFromReader` over the models. Whether `url.Parse`
-- accepts a text is an argument.
use llama_swap.Base.{
  ℕ, ◌+◌, List, [], ◌∷◌, Option, none, some, Bool, true, false, if◌then◌else◌, ◌&&◌,
}
use llama_swap.Base.Text.{Text, codes, text_eq, contains_text, replace_all}
use llama_swap.Base.Dict.{Dict, lookup, insert}
use llama_swap.Base.Decimal.{decimal}
use llama_swap.Config.Types.{
  Value, str, scalar, null, array, mapping, Items, nil, cons, Fields, end, field, ModelConfig,
  MacroEntry, MacroList, in_model, port_not_in_cmd, unknown_macro, unset_environment,
  invalid_proxy_url, Result, ok, err, ◌>>=◌, ◌>>◌, guard,
}
use llama_swap.Config.Macros.{
  slug, macro_text, validate_macros, merge_macros, substitute_fields, find_macros,
}
use llama_swap.Config.Env.{find_env}
use llama_swap.Config.Command.{strip_comments}

-- One macro put into the fields of a model.
unfoldable pub substitute_entry : MacroEntry → ModelConfig → ModelConfig
substitute_entry e m =
    let put : Text → Text = λ s. replace_all s (slug e.name) (macro_text e.value) in
    record m {
      cmd = put m.cmd;
      cmd_stop = put m.cmd_stop;
      proxy = put m.proxy;
      check_endpoint = put m.check_endpoint;
      filters = record {
        strip_params = put m.filters.strip_params;
        set_params = m.filters.set_params;
      };
      metadata = substitute_fields e.name e.value m.metadata;
    }

-- The loop from the last macro to the first.
unfoldable pub substitute_all : MacroList → ModelConfig → ModelConfig
substitute_all [] m = m
substitute_all (e ∷ es) m = substitute_entry e (substitute_all es m)

abbrev pub port_slug : Text
port_slug = codes "${PORT}"

unfoldable pub put_port : ℕ → ModelConfig → ModelConfig
put_port port m =
    let put : Text → Text = λ s. replace_all s port_slug (decimal port) in
    record m {
      cmd = put m.cmd;
      cmd_stop = put m.cmd_stop;
      proxy = put m.proxy;
      metadata = substitute_fields (codes "PORT") (scalar (decimal port)) m.metadata;
    }

-- A port is given only to a model whose command uses it.
unfoldable pub assign_port : Text → ModelConfig → ℕ → Result (ModelConfig × ℕ)
assign_port id m port =
    if contains_text m.cmd port_slug
    then ok (put_port port m, port + 1)
    else if contains_text m.proxy port_slug
    then err (port_not_in_cmd id)
    else ok (m, port)

-- The macros left in a field; `${PID}` may stand in `cmdStop`.
unfoldable pub check_left : Text → Bool → List Text → Result (Unit {0})
check_left id pid_allowed [] = ok tt
check_left id pid_allowed (n ∷ names) =
    let rest = check_left id pid_allowed names in
    if pid_allowed && text_eq n (codes "PID") then rest else err (unknown_macro n id)

unfoldable pub check_fields : Text → ModelConfig → Result (Unit {0})
check_fields id m = do
  check_left id false (find_macros m.cmd)
  check_left id true (find_macros m.cmd_stop)
  check_left id false (find_macros m.proxy)
  check_left id false (find_macros m.check_endpoint)
  check_left id false (find_macros m.filters.strip_params)

-- `validateNestedForUnknownMacros`.
abbrev pub check_env_left : Text → List Text → Result (Unit {0})
check_env_left id [] = ok tt
check_env_left id (n ∷ names) = err (unset_environment id n)

unfoldable pub check_text : Text → Text → Result (Unit {0})
check_text id s = check_left id false (find_macros s) >>= λ _. check_env_left id (find_env s)

unfoldable mutual
  unfolding check_text

  pub check_value : Text → Value → Result (Unit {0})
  check_value id (str s) = check_text id s
  check_value id (scalar t) = ok tt
  check_value id null = ok tt
  check_value id (array xs) = check_items id xs
  check_value id (mapping fs) = check_entries id fs

  pub check_items : Text → Items → Result (Unit {0})
  check_items id nil = ok tt
  check_items id (cons x xs) = check_value id x >>= λ _. check_items id xs

  pub check_entries : Text → Fields → Result (Unit {0})
  check_entries id end = ok tt
  check_entries id (field k v fs) = check_value id v >>= λ _. check_entries id fs

abbrev pub in_model_result : Text → Result (Unit {0}) → Result (Unit {0})
in_model_result id (ok u) = ok u
in_model_result id (err e) = err (in_model id e)

abbrev pub default_loading_state : Bool → Option Bool → Option Bool
default_loading_state global none = some global
default_loading_state global (some b) = some b

-- What the loop is given beside the model.
pub record Globals : Type 0 where
  pub macros : MacroList
  pub send_loading_state : Bool
  pub url_ok : Text → Bool

-- The model before its port is given.
unfoldable pub expand : Globals → Text → ModelConfig → ModelConfig
expand g id m =
    substitute_all (merge_macros id g.macros m.macros)
      (record m { cmd = strip_comments m.cmd; cmd_stop = strip_comments m.cmd_stop })

-- What is checked once the port is given.
unfoldable pub check_model : Globals → Text → ModelConfig × ℕ → Result (ModelConfig × ℕ)
check_model g id (m, next) = do
  check_fields id m
  check_entries id m.metadata
  guard (g.url_ok m.proxy) (invalid_proxy_url id)
  ok (
    record m {
      send_loading_state = default_loading_state g.send_loading_state m.send_loading_state;
    },
    next,
  )

-- One round of the loop.
unfoldable pub process_model : Globals → Text → ModelConfig → ℕ → Result (ModelConfig × ℕ)
process_model g id m port = do
  in_model_result id (validate_macros m.macros)
  r ← assign_port id (expand g id m) port
  check_model g id r

-- The loop over the sorted identifiers.
abbrev pub process_found :
    Globals → Text → Option ModelConfig → ℕ → Dict ModelConfig → Result (Dict ModelConfig × ℕ)
process_found g id none port models = ok (models, port)
process_found g id (some m) port models =
    process_model g id m port >>= λ r. ok (insert id r.0 models, r.1)

unfoldable pub process_models :
    Globals → List Text → ℕ → Dict ModelConfig → Result (Dict ModelConfig × ℕ)
process_models g [] port models = ok (models, port)
process_models g (id ∷ ids) port models =
    process_found g id (lookup id models) port models >>= λ r. process_models g ids r.1 r.0
