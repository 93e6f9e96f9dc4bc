-- ===== src/Tests/Configs.antt =====
-- proxy/config on concrete inputs.
use llama_swap.Base.{◌+◌, ◌≡◌, refl, ◌↔◌, [], ◌∷◌, none, some, true, false}
use llama_swap.Base.Text.{
  Text, codes, text_eq, contains, contains_text, has_prefix, replace_all, replace_from, split, join,
  trim_space, trim_left,
}
use llama_swap.Base.Dict.{Dict, lookup, insert}
use llama_swap.Config.Types.{
  scalar, str, end, ModelConfig, GroupConfig, Filters, Config, default_group_id, ok,
}
use llama_swap.Config.Names.{add_alias, add_aliases, populate_aliases}
use llama_swap.Config.Aliases.{Declares, populate_aliases_iff}
use llama_swap.Manager.Routes.{Found, find_from, find_model_in_path}
use llama_swap.Manager.Paths.{Cut, find_model_in_path-Cut}
use llama_swap.Config.Names.{real_model_name}
use llama_swap.Config.Groups.{add_default_group_to_config, groups_of}
use llama_swap.Config.Replaced.{default_group_replaces}
use llama_swap.Base.Decimal.{decimal, digits}
use llama_swap.Config.Macros.{
  validate_macros, validate_macro, macro_name_ok, validate_value, merge_macros, override_all,
  override, find_macros, macro_here, macro_text, name_to_brace, substitute_fields, substitute_text,
}
use llama_swap.Config.Command.{kept_lines, strip_comments}
use llama_swap.Config.Env.{env_here, env_to_brace, find_env}
use llama_swap.Config.Models.{
  assign_port, substitute_all, substitute_entry, check_entries, check_fields, check_left,
  check_model, check_text, put_port, Globals, expand, process_model,
}
use llama_swap.Config.ModelLaws.{Expanded, uses_port, one_if, with_port, process_model_ok}

abbrev filters : Filters
filters = record {
  strip_params = codes "top_k, model,temperature";
  set_params = (codes "model", str (codes "x")) ∷ (codes "seed", scalar (codes "1")) ∷ [];
}

abbrev pub model : ModelConfig
model = record {
  cmd = codes "s -p ${PORT} ${size}";
  cmd_stop = codes "kill ${PID}";
  proxy = codes "http://h:${PORT}";
  aliases = codes "small" ∷ [];
  check_endpoint = codes "/health";
  unload_after = 0;
  use_model_name = [];
  concurrency_limit = 0;
  filters = filters;
  macros = record { name = codes "size"; value = scalar (codes "7") } ∷ [];
  metadata = end;
  send_loading_state = none;
}

abbrev pub two_models : Dict ModelConfig
two_models = (codes "a", model) ∷ (codes "b", record model { aliases = codes "large" ∷ [] }) ∷ []

abbrev pub one_group : Dict GroupConfig
one_group =
    (
      codes "g",
      record { swap = true; exclusive = true; persistent = false; members = codes "a" ∷ [] },
    )
    ∷ []

abbrev pub config : Config
config = record {
  health_check_timeout = 20;
  log_to_stdout = codes "proxy";
  models = two_models;
  groups = one_group;
  macros = [];
  aliases = [];
  start_port = 5800;
  preload = [];
  send_loading_state = false;
  required_api_keys = [];
  peers = [];
  allowed_origins = [];
}

abbrev pub found_aliases : Dict Text
found_aliases = (codes "small", codes "a") ∷ (codes "large", codes "b") ∷ []

aliases_populate : populate_aliases two_models [] ≡ ok found_aliases
unfolding populate_aliases add_aliases add_alias lookup insert text_eq
aliases_populate = refl

populate_aliases_iff_example :
    (lookup (codes "large") found_aliases ≡ some (codes "b"))
    ↔ Declares two_models (codes "large") (codes "b")
populate_aliases_iff_example =
    populate_aliases_iff two_models found_aliases (codes "large") (codes "b") aliases_populate

-- The group is declared under the name of the default group.
abbrev named_default : Config
named_default = record config {
  groups =
      (
        default_group_id,
        record { swap = false; exclusive = false; persistent = false; members = codes "a" ∷ [] },
      )
      ∷ [];
}

default_group_replaces_example :
    groups_of (add_default_group_to_config named_default).groups (codes "a") ≡ []
default_group_replaces_example =
    default_group_replaces named_default
      (record { swap = false; exclusive = false; persistent = false; members = codes "a" ∷ [] })
      (codes "a") (unfold lookup text_eq in refl) (unfold contains text_eq in refl)
      (unfold groups_of contains text_eq in refl)

abbrev globals : Globals
globals = record { macros = []; send_loading_state = true; url_ok = λ s. true }

abbrev loaded : ModelConfig
loaded = record model {
  cmd = codes "s -p 5800 7";
  proxy = codes "http://h:5800";
  send_loading_state = some true;
}

model_loads : process_model globals (codes "a") model 5800 ≡ ok (loaded, 5801)
unfolding process_model validate_macros validate_macro macro_name_ok text_eq validate_value contains
    assign_port contains_text expand substitute_all merge_macros override_all override
    substitute_entry replace_all strip_comments join decimal digits has_prefix replace_from split
    trim_left trim_space kept_lines env_here env_to_brace find_env find_macros macro_here macro_text
    name_to_brace substitute_fields substitute_text check_entries check_fields check_left
    check_model check_text put_port
model_loads = refl

process_model_ok_example :
    Expanded loaded
    × (5801 ≡ 5800 + one_if (uses_port globals (codes "a") model))
    × (loaded.cmd
        ≡ with_port
            (uses_port globals (codes "a") model)
            5800
            (expand globals (codes "a") model).cmd)
process_model_ok_example =
    process_model_ok globals (codes "a") model 5800 (loaded, 5801) model_loads

-- The path goes on after the name of the model, and has an empty part before it.
abbrev found_b : Found
found_b = record { search_name = codes "b"; real_name = codes "b"; remaining = codes "/v1/x" }

finds_b : find_model_in_path config (codes "/b/v1/x") ≡ some found_b
unfolding find_model_in_path find_from real_model_name lookup text_eq split join trim_space
    trim_left
finds_b = refl

find_model_in_path-Cut_example : Cut config [] (split b'/' (trim_space (codes "/b/v1/x"))) found_b
find_model_in_path-Cut_example = find_model_in_path-Cut config (codes "/b/v1/x") found_b finds_b
