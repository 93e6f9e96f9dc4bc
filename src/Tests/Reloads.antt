-- ===== src/Tests/Reloads.antt =====
-- proxy/config_runtime_sync.go on concrete inputs.
use llama_swap.Base.{◌≡◌, refl, inl, List, [], ◌∷◌, none, some, true}
use llama_swap.Base.Text.{Text, codes, text_eq, contains}
use llama_swap.Base.Dict.{lookup, insert}
use llama_swap.Config.Types.{GroupConfig, Config}
use llama_swap.Config.Names.{find_config, real_model_name}
use llama_swap.Process.State.{Process, state_eq, new_process, is_valid_transition}
use llama_swap.Process.Stop.{Act, shut_down, stop_command, await_exit, interfere}
use llama_swap.Process.Final.{IfShutDown}
use llama_swap.Group.State.{ProcessGroup, settings_of}
use llama_swap.Sync.Runtime.{
  sync_group, sync_existing_group_runtime, sync_members, next_members, place_entries,
  shut_down_removed, next_groups, shut_down_groups, apply_config_and_sync_process_groups,
}
use llama_swap.Sync.Shadowed.{sync_group_shadowed}
use llama_swap.Sync.Applied.{OwnIn, ApplyEnd, apply_config_and_sync_process_groups-ApplyEnd}
use llama_swap.Sync.Editor.{Editor, EditorEnv, api_save_config_editor}
use llama_swap.Sync.Saved.{SaveEnd, api_save_config_editor-SaveEnd}
use llama_swap.Tests.Processes.{running_process, running_process-IsReady}
use llama_swap.Tests.Groups.{model, config, group, started}

-- The group runs "a", and "b" is stopped.
abbrev running_group : ProcessGroup
running_group = record started {
  processes = (codes "a", running_process) ∷ (codes "b", running_process) ∷ [];
  last_used_process = codes "a";
}

-- "b" is gone and "d" is new.
abbrev new_group : GroupConfig
new_group = record group { members = codes "a" ∷ codes "d" ∷ [] }

abbrev new_config : Config
new_config = record config {
  models = (codes "a", model) ∷ (codes "d", model) ∷ [];
  groups = (codes "g", new_group) ∷ [];
}

abbrev quiet : Text → List Act
quiet name = []

abbrev applied_group : ProcessGroup
applied_group = record running_group {
  config = new_config;
  processes =
      (codes "a", running_process) ∷ (codes "d", new_process 20 (settings_of (some model))) ∷ [];
}

applies :
    apply_config_and_sync_process_groups ((codes "g", running_group) ∷ []) new_config (λ id. quiet)
    ≡ some ((codes "g", applied_group) ∷ [], [])
unfolding apply_config_and_sync_process_groups next_groups shut_down_groups sync_group lookup
    text_eq contains find_config real_model_name sync_existing_group_runtime sync_members
    next_members place_entries shut_down_removed insert state_eq shut_down is_valid_transition
    stop_command await_exit interfere new_process
applies = refl

own_names : OwnIn new_config (some running_group) (some new_group)
unfolding real_model_name lookup text_eq
own_names = (inl refl, (inl refl, tt))

apply_config_and_sync_process_groups-ApplyEnd_example :
    ApplyEnd new_config
      (λ id. quiet)
      (codes "g")
      (some running_group)
      (some new_group)
      (some applied_group)
      none
unfolding lookup text_eq
apply_config_and_sync_process_groups-ApplyEnd_example =
    apply_config_and_sync_process_groups-ApplyEnd ((codes "g", running_group) ∷ []) new_config
      (λ id. quiet) (codes "g") applies own_names

-- "a" has become an alias of "n", and is still the member of the group.
abbrev alias_group : GroupConfig
alias_group = record group { members = codes "a" ∷ [] }

abbrev alias_config : Config
alias_config = record config {
  models = (codes "n", model) ∷ [];
  groups = (codes "g", alias_group) ∷ [];
  aliases = (codes "a", codes "n") ∷ [];
}

abbrev shadowed : Process
shadowed = elim (shut_down running_process []) [ none ↦ running_process | some p ↦ p ]

abbrev alias_running : ProcessGroup
alias_running = record running_group { processes = (codes "a", running_process) ∷ [] }

abbrev shadowed_group : ProcessGroup
shadowed_group = record running_group {
  config = alias_config;
  processes = (codes "n", shadowed) ∷ [];
  last_used_process = [];
}

syncs :
    sync_group alias_running alias_group alias_config quiet
    ≡ some (shadowed_group, (codes "a", shadowed) ∷ [])
unfolding sync_group lookup text_eq contains find_config real_model_name sync_existing_group_runtime
    sync_members next_members place_entries shut_down_removed insert state_eq shut_down
    is_valid_transition stop_command await_exit interfere new_process
syncs = refl

sync_group_shadowed_example : IfShutDown (some shadowed)
unfolding contains text_eq lookup next_members real_model_name
sync_group_shadowed_example =
    sync_group_shadowed alias_running alias_group alias_config quiet (codes "n") (codes "a") refl
      (inl refl, tt) refl refl refl refl running_process-IsReady refl syncs

abbrev editor : Editor
editor = record {
  files = (codes "c.yaml", codes "old") ∷ [];
  config = config;
  groups = (codes "g", running_group) ∷ [];
  events = 0;
}

abbrev editor_env : EditorEnv
editor_env = record {
  load = λ raw. some new_config;
  normalize = λ c. c;
  shell_ok = λ c. true;
  config_path = some (codes "c.yaml");
  write_fails = none;
  rename_ok = true;
  others = λ id. quiet;
}

api_save_config_editor-SaveEnd_example :
    SaveEnd editor_env editor
      (some (codes "new"))
      (api_save_config_editor editor_env editor (some (codes "new"))).0
      (api_save_config_editor editor_env editor (some (codes "new"))).1
api_save_config_editor-SaveEnd_example =
    api_save_config_editor-SaveEnd editor_env editor (some (codes "new"))
