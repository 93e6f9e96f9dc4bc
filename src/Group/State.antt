-- ===== src/Group/State.antt =====
-- proxy/processgroup.go: `ProcessGroup`, its construction and its operations.
use llama_swap.Base.{List, [], ◌∷◌, Option, none, some, Bool, true, false, if◌then◌else◌}
use llama_swap.Base.Text.{Text, text_eq, contains}
use llama_swap.Base.Dict.{Dict, lookup, insert}
use llama_swap.Config.Types.{GroupConfig, ModelConfig, Config}
use llama_swap.Config.Names.{find_config}
use llama_swap.Process.State.{Settings, Process, new_process}
use llama_swap.Process.Stop.{Act, stop, stop_immediately, shut_down}
use llama_swap.Process.Request.{Answer, RequestEnv, proxy_request}

pub record ProcessGroup : Type 0 where
  pub config : Config
  pub id : Text
  pub swap : Bool
  pub exclusive : Bool
  pub persistent : Bool
  pub processes : Dict Process
  pub last_used_process : Text

abbrev pub settings_of : Option ModelConfig → Settings
settings_of (some m) = record {
  proxy = m.proxy;
  concurrency_limit = m.concurrency_limit;
  unload_after = m.unload_after;
  check_endpoint = m.check_endpoint;
}
settings_of none = record {
  proxy = [];
  concurrency_limit = 0;
  unload_after = 0;
  check_endpoint = [];
}

-- What `FindConfig` gives for a member: the name and the configuration, or "" and an empty one.
abbrev pub name_found : Option (Option ModelConfig × Text) → Text
name_found (some (m, name)) = name
name_found none = []

abbrev pub settings_found : Option (Option ModelConfig × Text) → Settings
settings_found (some (m, name)) = settings_of m
settings_found none = settings_of none

unfoldable pub create_processes : Config → List Text → Dict Process → Dict Process
create_processes c [] processes = processes
create_processes c (member ∷ members) processes =
    let found = find_config c member in
    create_processes c members (
      insert (name_found found) (new_process c.health_check_timeout (settings_found found))
        processes)

-- `NewProcessGroup`; `none` is its panic.
abbrev pub group_from : Text → Config → Option GroupConfig → Option ProcessGroup
group_from id c none = none
group_from id c (some g) = some (record {
  config = c;
  id = id;
  swap = g.swap;
  exclusive = g.exclusive;
  persistent = g.persistent;
  processes = create_processes c g.members [];
  last_used_process = [];
})

unfoldable pub new_process_group : Text → Config → Option ProcessGroup
new_process_group id c = group_from id c (lookup id c.groups)

abbrev pub members_in : Option GroupConfig → List Text
members_in none = []
members_in (some g) = g.members

unfoldable pub has_member : ProcessGroup → Text → Bool
has_member g name = contains (members_in (lookup g.id g.config.groups)) name

-- `GetMember`: the process, nil where the map has none, and whether the name is a member.
unfoldable pub get_member : ProcessGroup → Text → Option Process × Bool
get_member g name = if has_member g name then (lookup name g.processes, true) else (none, false)

-- A method that is called on a process of the map changes that process.
abbrev pub put_process : ProcessGroup → Text → Process → ProcessGroup
put_process g name p = record g { processes = insert name p g.processes }

pub data StopStrategy : Type 0 where
  immediately wait_for_inflight_request : StopStrategy

-- What the other goroutines do on a process while a method stops it.
pub record StopEnv : Type 0 where
  pub drained : List Act
  pub rounds : List (List Act)
  pub final : List Act

abbrev pub stop_by : StopStrategy → StopEnv → Process → Option Process
stop_by immediately env p = stop_immediately p env.rounds env.final
stop_by wait_for_inflight_request env p = stop p env.drained env.rounds env.final

-- How a call on a group ends. `nil_process`: a method is called on a nil process, which panics.
pub data GroupAnswer : Type 0 where
  not_part_of_group nil_process never_returns : GroupAnswer
  answered : Answer → GroupAnswer

-- The request, on the process that the map has for it.
abbrev pub on_process :
    ProcessGroup → Text → RequestEnv → Option Process → GroupAnswer × ProcessGroup
on_process g model env none = (nil_process, g)
on_process g model env (some p) =
    let (a, q) = proxy_request p env in (answered a, put_process g model q)

-- `previousProcess.Stop()`, where there is one. `none`: it does not return.
abbrev pub with_process : ProcessGroup → Text → Option Process → Option ProcessGroup
with_process g name none = none
with_process g name (some p) = some (put_process g name p)

abbrev pub stop_found :
    ProcessGroup → Text → StopStrategy → StopEnv → Option Process → Option ProcessGroup
stop_found g name strategy env none = some g
stop_found g name strategy env (some p) = with_process g name (stop_by strategy env p)

unfoldable pub stop_previous : ProcessGroup → Text → StopEnv → Option ProcessGroup
stop_previous g previous env =
    if text_eq previous []
    then some g
    else stop_found g previous wait_for_inflight_request env (lookup previous g.processes)

abbrev pub after_previous :
    ProcessGroup → Text → RequestEnv → Option ProcessGroup → GroupAnswer × ProcessGroup
after_previous g model env none = (never_returns, g)
after_previous g model env (some h) = on_process h model env (lookup model h.processes)

-- `ProxyRequest`. A group in swap mode stops the process that was used before, if it is another one.
unfoldable pub group_request :
    ProcessGroup → Text → StopEnv → RequestEnv → GroupAnswer × ProcessGroup
group_request g model stop_env env =
    if has_member g model
    then (if g.swap
        then (let used = record g { last_used_process = model } in
            if text_eq g.last_used_process model
            then on_process g model env (lookup model g.processes)
            else after_previous used model env (stop_previous used g.last_used_process stop_env))
        else on_process g model env (lookup model g.processes))
    else (not_part_of_group, g)

-- `StopProcess`. The error is `process not found`; `never` that the stop does not return.
pub data StopAnswer : Type 0 where
  process_not_found : StopAnswer
  never : StopAnswer
  done_with : ProcessGroup → StopAnswer

abbrev pub stop_answer : Option ProcessGroup → StopAnswer
stop_answer none = never
stop_answer (some g) = done_with g

abbrev pub on_found : ProcessGroup → Text → StopStrategy → StopEnv → Option Process → StopAnswer
on_found g model strategy env none = process_not_found
on_found g model strategy env (some p) =
    let used = if text_eq g.last_used_process model then [] else g.last_used_process in
    stop_answer (stop_found (record g { last_used_process = used }) model strategy env (some p))

unfoldable pub stop_process : ProcessGroup → Text → StopStrategy → StopEnv → StopAnswer
stop_process g model strategy env = on_found g model strategy env (lookup model g.processes)

-- The goroutines that `StopProcesses` and `Shutdown` start, one for each process. `none`: one of
-- them does not end, and the call waits for it.
abbrev pub both : Text → Option Process → Option (Dict Process) → Option (Dict Process)
both name (some p) (some rest) = some ((name, p) ∷ rest)
both name _ _ = none

unfoldable pub each_process :
    (Text → Process → Option Process) → Dict Process → Option (Dict Process)
each_process f [] = some []
each_process f ((name, p) ∷ processes) = both name (f name p) (each_process f processes)

abbrev pub with_processes : ProcessGroup → Option (Dict Process) → Option ProcessGroup
with_processes g none = none
with_processes g (some ps) = some (record g { processes = ps })

unfoldable pub stop_processes : ProcessGroup → StopStrategy → (Text → StopEnv) → Option ProcessGroup
stop_processes g strategy env =
    with_processes g (each_process (λ name p. stop_by strategy (env name) p) g.processes)

unfoldable pub shut_down_group : ProcessGroup → (Text → List Act) → Option ProcessGroup
shut_down_group g others =
    with_processes g (each_process (λ name p. shut_down p (others name)) g.processes)
