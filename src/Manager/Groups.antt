-- ===== src/Manager/Groups.antt =====
-- proxy/proxymanager.go: the process groups of the manager, `findGroupByModelName`,
-- `swapProcessGroup`, `StopProcesses` and `Shutdown`.
use llama_swap.Base.{List, [], ◌∷◌, Option, none, some, Bool, if◌then◌else◌, ◌&&◌, not}
use llama_swap.Base.Text.{Text, text_eq}
use llama_swap.Base.Dict.{Dict}
use llama_swap.Config.Types.{Config}
use llama_swap.Process.Stop.{Act}
use llama_swap.Group.State.{
  ProcessGroup, has_member, StopEnv, StopStrategy, wait_for_inflight_request, stop_processes,
  shut_down_group, new_process_group,
}

-- `pm.processGroups`, made from the groups of the configuration. `none`: `NewProcessGroup` panics.
abbrev pub with_group :
    Text → Option ProcessGroup → Option (Dict ProcessGroup) → Option (Dict ProcessGroup)
with_group id (some g) (some rest) = some ((id, g) ∷ rest)
with_group id _ _ = none

unfoldable pub create_groups : Config → List Text → Option (Dict ProcessGroup)
create_groups c [] = some []
create_groups c (id ∷ ids) = with_group id (new_process_group id c) (create_groups c ids)

-- `findGroupByModelName`. A map has no order; the models of a configuration are in one group.
unfoldable pub find_group_by_model_name : Dict ProcessGroup → Text → Option ProcessGroup
find_group_by_model_name [] model = none
find_group_by_model_name ((id, g) ∷ groups) model =
    let rest = find_group_by_model_name groups model in if has_member g model then some g else rest

-- Whether the swap to a group stops another.
abbrev pub makes_room : ProcessGroup → Text → ProcessGroup → Bool
makes_room target id other = not (text_eq id target.id) && not other.persistent

-- The loop over the other groups. `none`: a stop does not return, and the loop waits for it.
abbrev pub with_rest :
    Text → Option ProcessGroup → Option (Dict ProcessGroup) → Option (Dict ProcessGroup)
with_rest id (some g) (some rest) = some ((id, g) ∷ rest)
with_rest id _ _ = none

unfoldable pub stop_others :
    ProcessGroup → (Text → Text → StopEnv) → Dict ProcessGroup → Option (Dict ProcessGroup)
stop_others target env [] = some []
stop_others target env ((id, other) ∷ groups) =
    let rest = stop_others target env groups in
    with_rest id
      (if makes_room target id other
        then stop_processes other wait_for_inflight_request (env id)
        else some other)
      rest

-- `swapProcessGroup`: no group for the model, a stop that does not return, or the group's id and
-- the groups afterwards.
pub data Swap : Type 0 where
  no_group waits : Swap
  swapped : Text → Dict ProcessGroup → Swap

abbrev pub swapped_to : Text → Option (Dict ProcessGroup) → Swap
swapped_to id none = waits
swapped_to id (some groups) = swapped id groups

abbrev pub swap_to : Dict ProcessGroup → (Text → Text → StopEnv) → Option ProcessGroup → Swap
swap_to groups env none = no_group
swap_to groups env (some g) =
    if g.exclusive then swapped_to g.id (stop_others g env groups) else swapped g.id groups

unfoldable pub swap_process_group : Dict ProcessGroup → (Text → Text → StopEnv) → Text → Swap
swap_process_group groups env model = swap_to groups env (find_group_by_model_name groups model)

-- `StopProcesses` and `Shutdown`: one goroutine for each group.
unfoldable pub each_group :
    (Text → ProcessGroup → Option ProcessGroup) → Dict ProcessGroup → Option (Dict ProcessGroup)
each_group f [] = some []
each_group f ((id, g) ∷ groups) = let rest = each_group f groups in with_rest id (f id g) rest

unfoldable pub stop_all_processes :
    Dict ProcessGroup → StopStrategy → (Text → Text → StopEnv) → Option (Dict ProcessGroup)
stop_all_processes groups strategy env =
    each_group (λ id g. stop_processes g strategy (env id)) groups

unfoldable pub shut_down_all :
    Dict ProcessGroup → (Text → Text → List Act) → Option (Dict ProcessGroup)
shut_down_all groups others = each_group (λ id g. shut_down_group g (others id)) groups
