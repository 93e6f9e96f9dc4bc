-- ===== src/Group/Created.antt =====
-- proxy/processgroup.go: the processes that `NewProcessGroup` makes.
use llama_swap.Base.{ℕ, refl, List, [], ◌∷◌, arith, inl}
use llama_swap.Base.Text.{Text}
use llama_swap.Base.Dict.{Dict, lookup, insert}
use llama_swap.Config.Types.{Config}
use llama_swap.Config.Names.{find_config}
use llama_swap.Process.State.{Settings, Process, new_process}
use llama_swap.Process.Calm.{IsStopped}
use llama_swap.Group.State.{settings_found, name_found, create_processes}
use llama_swap.Process.State.{Settings, new_process}
use llama_swap.Group.State.{create_processes, settings_found, name_found}
use llama_swap.Config.Names.{find_config}
use llama_swap.Config.Types.{Config}
use llama_swap.Base.{refl}
use llama_swap.Group.Swapped.{Idle, IfSome-insert, StoppedOrLast, Swapped}

new-IsStopped : (t : ℕ) (s : Settings) → IsStopped (new_process t s)
unfolding new_process
new-IsStopped t s = record { dead = refl; at_stopped = refl }

new-Idle : (t : ℕ) (s : Settings) → Idle t (new_process t s)
unfolding new_process
new-Idle t s = record {
  settled = inl (record { dead = refl; at_stopped = refl });
  no_request = refl;
  no_slot = refl;
  room = ground arith;
  same_timeout = refl;
}

-- A fresh map of processes, all stopped.
pub create_processes-Swapped :
    (c : Config) (members : List Text) (ps : Dict Process)
    → Swapped c.health_check_timeout [] ps
    → Swapped c.health_check_timeout [] (create_processes c members ps)
unfolding create_processes
create_processes-Swapped c [] ps w = w
create_processes-Swapped c (m ∷ members) ps w =
    let found = find_config c m in
    let p = new_process c.health_check_timeout (settings_found found) in
    create_processes-Swapped c members (insert (name_found found) p ps) (record {
      idle = λ j.
          IfSome-insert (λ n x. Idle c.health_check_timeout x) (name_found found) p ps
            (new-Idle c.health_check_timeout (settings_found found)) j (w.idle j);
      only_last = λ j.
          IfSome-insert (λ n x. StoppedOrLast [] n x) (name_found found) p ps
            (inl (new-IsStopped c.health_check_timeout (settings_found found))) j (w.only_last j);
    })

pub none-Swapped : (timeout : ℕ) → Swapped timeout [] []
unfolding lookup
none-Swapped timeout = record { idle = λ name. tt; only_last = λ name. tt }
