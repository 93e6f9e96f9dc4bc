-- ===== src/Sync/Runtime.antt =====
-- proxy/config_runtime_sync.go: `syncExistingGroupRuntime` and `applyConfigAndSyncProcessGroups`.
-- The new map of a group shares processes with the old one. A shared process is named by the key
-- that it has in the old map, so that a later `Shutdown` is seen in both.
use llama_swap.Base.{
  ℕ, List, [], ◌∷◌, Option, none, some, Bool, true, false, if◌then◌else◌, ◌||◌, not,
}
use llama_swap.Base.Text.{Text, contains}
use llama_swap.Base.Dict.{Dict, lookup, insert}
use llama_swap.Config.Types.{GroupConfig, ModelConfig, Config}
use llama_swap.Config.Names.{real_model_name, find_config}
use llama_swap.Process.State.{stopped, shutdown, state_eq, Settings, Process, new_process}
use llama_swap.Process.Stop.{Act, shut_down}
use llama_swap.Group.State.{ProcessGroup, settings_of, new_process_group, shut_down_group}

-- A value of `nextProcesses`: a process of the old map, by its key there and as the loop finds it, or
-- a new one.
pub data Entry : Type 0 where
  kept : Text → Process → Entry
  made : Process → Entry

abbrev pub keyed : Text → Option Process → Option (Text × Process)
keyed key none = none
keyed key (some p) = some (key, p)

abbrev pub or_else {ℓ} : {A : Type ℓ} → Option A → Option A → Option A
or_else none b = b
or_else (some a) b = some a

-- `existing`: the process under the resolved name, else the one under the member's own name.
abbrev pub existing_process : Dict Process → Text → Text → Option (Text × Process)
existing_process old name member =
    or_else (keyed name (lookup name old)) (keyed member (lookup member old))

abbrev pub entry_for : ℕ → Settings → Option (Text × Process) → Entry
entry_for timeout s none = made (new_process timeout s)
entry_for timeout s (some (key, p)) =
    if state_eq p.state stopped then made (new_process timeout s) else kept key p

-- One round of the loop over the members.
abbrev pub sync_member :
    Dict Process → ℕ → Text → Option (Option ModelConfig × Text) → Dict Entry → Dict Entry
sync_member old timeout member none next = next
sync_member old timeout member (some (m, name)) next =
    insert name (entry_for timeout (settings_of m) (existing_process old name member)) next

unfoldable pub sync_members : Dict Process → Config → List Text → Dict Entry → Dict Entry
sync_members old c [] next = next
sync_members old c (member ∷ members) next =
    sync_members old c members
      (sync_member old c.health_check_timeout member (find_config c member) next)

-- `nextMembers`.
abbrev pub name_and : Option Text → List Text → List Text
name_and none names = names
name_and (some name) names = name ∷ names

unfoldable pub next_members : Config → List Text → List Text
next_members c [] = []
next_members c (member ∷ members) = name_and (real_model_name c member) (next_members c members)

-- Whether the loop over the old processes hands a process to `Shutdown`.
abbrev pub is_removed : List Text → Text → Process → Bool
is_removed next name p =
    not (contains next name || (state_eq p.state stopped || state_eq p.state shutdown))

-- The group with its new fields, the new map, and the names that stay.
pub record SyncedGroup : Type 0 where
  pub group : ProcessGroup
  pub next : Dict Entry
  pub names : List Text

abbrev pub last_used_in : Text → Option Entry → Text
last_used_in last none = []
last_used_in last (some e) = last

unfoldable pub sync_existing_group_runtime : ProcessGroup → GroupConfig → Config → SyncedGroup
sync_existing_group_runtime g new c =
    let next = sync_members g.processes c new.members [] in
    record {
      group = record g {
        config = c;
        swap = new.swap;
        exclusive = new.exclusive;
        persistent = new.persistent;
        last_used_process = last_used_in g.last_used_process (lookup g.last_used_process next);
      };
      next = next;
      names = next_members c new.members;
    }

-- `process.Shutdown()` for each removed process, one after the other. `none`: one does not return.
abbrev pub put_first : Text → Option Process → Option (Dict Process) → Option (Dict Process)
put_first name (some p) (some rest) = some ((name, p) ∷ rest)
put_first name _ _ = none

unfoldable pub shut_down_removed :
    List Text → (Text → List Act) → Dict Process → Option (Dict Process)
unfolding shut_down
shut_down_removed names others [] = some []
shut_down_removed names others ((name, p) ∷ old) =
    let q = if is_removed names name p then shut_down p (others name) else some p in
    put_first name q (shut_down_removed names others old)

-- The new map once the processes of the old one are in the state `store`.
abbrev pub process_or {ℓ} : {A : Type ℓ} → A → Option A → A
process_or p none = p
process_or p (some q) = q

abbrev pub place_entry : Dict Process → Entry → Process
place_entry store (made p) = p
place_entry store (kept key p) = process_or p (lookup key store)

unfoldable pub place_entries : Dict Process → Dict Entry → Dict Process
place_entries store [] = []
place_entries store ((name, e) ∷ next) = (name, place_entry store e) ∷ place_entries store next

-- A group once the removed processes are shut down: the group, and all that the old map held.
abbrev pub settle : SyncedGroup → Option (Dict Process) → Option (ProcessGroup × Dict Process)
settle s none = none
settle s (some store) = some (record s.group { processes = place_entries store s.next }, store)

unfoldable pub sync_group :
    ProcessGroup → GroupConfig → Config → (Text → List Act) → Option (ProcessGroup × Dict Process)
unfolding sync_existing_group_runtime shut_down_removed
sync_group g new c others =
    let s = sync_existing_group_runtime g new c in
    settle s (shut_down_removed s.names others g.processes)

-- One round of the loop over the groups of the new configuration.
abbrev pub group_of_sync : Option (ProcessGroup × Dict Process) → Option ProcessGroup
group_of_sync none = none
group_of_sync (some (g, store)) = some g

abbrev pub next_group :
    Text → GroupConfig → Config → (Text → List Act) → Option ProcessGroup → Option ProcessGroup
next_group id new c others (some g) = group_of_sync (sync_group g new c others)
next_group id new c others none = new_process_group id c

abbrev pub put_group :
    Text → Option ProcessGroup → Option (Dict ProcessGroup) → Option (Dict ProcessGroup)
put_group id (some g) (some rest) = some ((id, g) ∷ rest)
put_group id _ _ = none

unfoldable pub next_groups :
    Dict ProcessGroup
    → Config
    → (Text → Text → List Act)
    → Dict GroupConfig
    → Option (Dict ProcessGroup)
next_groups old c others [] = some []
next_groups old c others ((id, new) ∷ groups) =
    put_group id (next_group id new c (others id) (lookup id old)) (next_groups old c others groups)

-- `groupsToShutdown`, each after its `Shutdown`.
abbrev pub is_group_of : Option GroupConfig → Bool
is_group_of none = false
is_group_of (some new) = true

unfoldable pub shut_down_groups :
    Config → (Text → Text → List Act) → Dict ProcessGroup → Option (Dict ProcessGroup)
shut_down_groups c others [] = some []
shut_down_groups c others ((id, g) ∷ old) =
    let rest = shut_down_groups c others old in
    if is_group_of (lookup id c.groups)
    then rest
    else put_group id (shut_down_group g (others id)) rest

-- The manager's groups and the groups that it no longer has. Nothing else happens to the processes
-- meanwhile but what `others` lists. `none`: a `Shutdown` does not return, or a new group panics.
abbrev pub both_groups :
    Option (Dict ProcessGroup)
    → Option (Dict ProcessGroup)
    → Option (Dict ProcessGroup × Dict ProcessGroup)
both_groups (some new) (some gone) = some (new, gone)
both_groups _ _ = none

unfoldable pub apply_config_and_sync_process_groups :
    Dict ProcessGroup
    → Config
    → (Text → Text → List Act)
    → Option (Dict ProcessGroup × Dict ProcessGroup)
unfolding next_groups shut_down_groups
apply_config_and_sync_process_groups old c others =
    both_groups (next_groups old c others c.groups) (shut_down_groups c others old)
