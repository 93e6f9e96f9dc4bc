-- ===== src/Tests/Loads.antt =====
-- proxy/config/config.go: a whole load, and a merge of macros.
use llama_swap.Base.{◌≡◌, refl, [], ◌∷◌, none, some, true, false, length}
use llama_swap.Base.Text.{
  codes, text_eq, contains, contains_text, has_prefix, replace_all, replace_from, split, join,
  trim_space, trim_left,
}
use llama_swap.Base.Dict.{lookup, insert, keys}
use llama_swap.Base.Sort.{sort_texts, insert_sorted}
use llama_swap.Config.Types.{scalar, str, Config, default_group_id, ok}
use llama_swap.Config.Names.{add_alias, add_aliases, populate_aliases}
use llama_swap.Config.Groups.{
  add_default_group_to_config, default_group, validate_groups, check_member, check_members,
  groups_of, in_groups, ungrouped,
}
use llama_swap.Base.Decimal.{decimal, digits}
use llama_swap.Config.Macros.{
  validate_macros, validate_macro, macro_name_ok, validate_value, merge_macros, override_all,
  override, find_macros, macro_here, macro_text, name_to_brace, substitute_fields, substitute_text,
}
use llama_swap.Config.Command.{kept_lines, strip_comments}
use llama_swap.Config.Env.{env_here, env_to_brace, find_env}
use llama_swap.Config.Models.{
  assign_port, substitute_all, substitute_entry, check_entries, check_fields, check_left,
  check_model, check_text, put_port, expand, process_model,
}
use llama_swap.Config.Load.{load_config, check_api_keys, process_peers}
use llama_swap.Config.Loaded.{load_config_partition}
use llama_swap.Config.Macros.{merge_macros}
use llama_swap.Config.Names.{clean_preload}
use llama_swap.Config.Groups.{
  default_group, check_member, check_members, validate_groups, in_groups, ungrouped, groups_of,
  add_default_group_to_config,
}
use llama_swap.Config.Models.{process_models, process_model}
use llama_swap.Base.Dict.{lookup, insert, keys}
use llama_swap.Base.Sort.{sort_texts, insert_sorted, text_le}
use llama_swap.Config.Names.{add_alias, add_aliases, populate_aliases}
use llama_swap.Config.Types.{scalar, str, MacroList, Config, default_group_id, ok}
use llama_swap.Tests.Configs.{config, model, found_aliases}

no_default : lookup default_group_id config.groups ≡ none
unfolding lookup text_eq
no_default = refl

abbrev loaded_config : Config
loaded_config = record config {
  models =
      (
        codes "a",
        record model {
          cmd = codes "s -p 5800 7";
          proxy = codes "http://h:5800";
          send_loading_state = some false;
        },
      )
      ∷ (
        codes "b",
        record model {
          cmd = codes "s -p 5801 7";
          proxy = codes "http://h:5801";
          aliases = codes "large" ∷ [];
          send_loading_state = some false;
        },
      )
      ∷ [];
  groups =
      (
        codes "g",
        record { swap = true; exclusive = true; persistent = false; members = codes "a" ∷ [] },
      )
      ∷ (
        default_group_id,
        record { swap = true; exclusive = true; persistent = false; members = codes "b" ∷ [] },
      )
      ∷ [];
  aliases = found_aliases;
}

loads : load_config (λ s. true) config ≡ ok loaded_config
unfolding load_config process_models populate_aliases add_aliases add_alias lookup insert sort_texts
    insert_sorted text_le check_api_keys process_peers clean_preload validate_groups check_members
    check_member add_default_group_to_config default_group in_groups ungrouped process_model
    validate_macros validate_macro macro_name_ok text_eq validate_value contains assign_port
    contains_text expand substitute_all merge_macros override_all override substitute_entry
    replace_all strip_comments join decimal digits has_prefix replace_from split trim_left
    trim_space kept_lines env_here env_to_brace find_env find_macros macro_here macro_text
    name_to_brace substitute_fields substitute_text check_entries check_fields check_left
    check_model check_text put_port
loads = refl

has_b : contains (keys loaded_config.models) (codes "b") ≡ true
unfolding contains text_eq
has_b = refl

load_config_partition_example : length (groups_of loaded_config.groups (codes "b")) ≡ 1
load_config_partition_example =
    load_config_partition (λ s. true) config loaded_config (codes "b") no_default loads has_b

abbrev global_macros : MacroList
global_macros =
    record { name = codes "size"; value = scalar (codes "1") }
    ∷ record { name = codes "x"; value = str (codes "y") }
    ∷ []
