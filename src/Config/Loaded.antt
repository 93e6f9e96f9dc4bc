-- ===== src/Config/Loaded.antt =====
-- proxy/config/config.go: what a configuration that loads guarantees.
use llama_swap.Base.{ℕ, ◌≡◌, refl, subst, [], none, Bool, true, not, length, ltb}
use llama_swap.Base.Text.{Text, contains}
use llama_swap.Base.Dict.{Dict, lookup, keys}
use llama_swap.Base.Sort.{sort_texts}
use llama_swap.Config.Types.{
  ModelConfig, Config, default_group_id, ok, guard, health_check_timeout_too_small,
  start_port_too_small, bad_log_to_stdout,
}
use llama_swap.Config.Results.{bind_ok, ok_injective}
use llama_swap.Config.Names.{populate_aliases}
use llama_swap.Config.Macros.{validate_macros}
use llama_swap.Config.Groups.{add_default_group_to_config, validate_groups, groups_of}
use llama_swap.Config.Models.{process_models}
use llama_swap.Config.Load.{log_outputs, check_api_keys, process_peers, load_config}
use llama_swap.Config.Partition.{groups_partition}

-- What the steps of a load that succeeds have made.
pub record Steps (url_ok : Text → Bool) (c d : Config) : Type 0 where
  pub aliases : Dict Text
  pub models : Dict ModelConfig
  pub next_port : ℕ
  pub usage : Dict Text
  pub populated : populate_aliases c.models [] ≡ ok aliases
  pub processed :
      process_models
        (record { macros = c.macros; send_loading_state = c.send_loading_state; url_ok = url_ok })
        (sort_texts (keys c.models))
        c.start_port
        c.models
      ≡ ok (models, next_port)
  pub validated :
      validate_groups
        (add_default_group_to_config (record c { aliases = aliases; models = models })).groups
        []
      ≡ ok usage
  pub checked : check_api_keys c.required_api_keys ≡ ok tt
  pub loaded_models : d.models ≡ models
  pub loaded_aliases : d.aliases ≡ aliases
  pub loaded_keys : d.required_api_keys ≡ c.required_api_keys
  pub loaded_groups :
      d.groups
      ≡ (add_default_group_to_config (record c { aliases = aliases; models = models })).groups

load_config-Steps :
    (url_ok : Text → Bool) (c d : Config) → load_config url_ok c ≡ ok d → Steps url_ok c d
unfolding load_config add_default_group_to_config
load_config-Steps url_ok c d h =
    let (_, _, h₁) =
      bind_ok (guard (not (ltb c.health_check_timeout 15)) health_check_timeout_too_small) _ h in
    let (_, _, h₂) = bind_ok (guard (not (ltb c.start_port 1)) start_port_too_small) _ h₁ in
    let (_, _, h₃) =
      bind_ok (guard (contains log_outputs c.log_to_stdout) bad_log_to_stdout) _ h₂ in
    let (aliases, p, h₄) = bind_ok (populate_aliases c.models []) _ h₃ in
    let (_, _, h₅) = bind_ok (validate_macros c.macros) _ h₄ in
    let (r, m, h₆) =
      bind_ok
        (process_models
          (record { macros = c.macros; send_loading_state = c.send_loading_state; url_ok = url_ok })
          (sort_texts (keys c.models)) c.start_port c.models)
        _ h₅ in
    let e = add_default_group_to_config (record c { aliases = aliases; models = r.0 }) in
    let (usage, v, h₇) = bind_ok (validate_groups e.groups []) _ h₆ in
    let (_, k, h₈) = bind_ok (check_api_keys c.required_api_keys) _ h₇ in
    let (peers, _, h₉) = bind_ok (process_peers c.macros c.peers) _ h₈ in
    subst (λ (x : Config). Steps url_ok c x) (ok_injective h₉)
      (record {
        aliases = aliases;
        models = r.0;
        next_port = r.1;
        usage = usage;
        populated = p;
        processed = m;
        validated = v;
        checked = k;
        loaded_models = refl;
        loaded_aliases = refl;
        loaded_keys = refl;
        loaded_groups = refl;
      })

-- Every model of a configuration that loads is in exactly one group, on the condition that no
-- declared group is named like the default group.
pub load_config_partition :
    (url_ok : Text → Bool) (c d : Config) (name : Text)
    → lookup default_group_id c.groups ≡ none
    → load_config url_ok c ≡ ok d
    → contains (keys d.models) name ≡ true
    → length (groups_of d.groups name) ≡ 1
load_config_partition url_ok c d name n h k =
    let s = load_config-Steps url_ok c d h in
    rw s.loaded_groups (
      groups_partition (record c { aliases = s.aliases; models = s.models }) s.usage name n
        s.validated (rw s.loaded_models at k))
