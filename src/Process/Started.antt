-- ===== src/Process/Started.antt =====
-- proxy/process.go: what it means that `start` returns without an error.
use llama_swap.Base.{◌*◌, ◌≡◌, [], Option, none, some, true, arith, if_holds}
use llama_swap.Base.Text.{Text, text_eq, trim_space, codes}
use llama_swap.Process.State.{
  State, stopped, starting, ready, Process, SwapError, expected_state_mismatch, swap_state,
}
use llama_swap.Process.Walks.{state_eq_iff}
use llama_swap.Process.Stop.{interfere, arm}
use llama_swap.Process.Health.{Health, passed, health_loop, first_delay}
use llama_swap.Process.Start.{
  StartEnv, Started, done, with_ttl, on_ready, finish_start, after_health, check_health,
  on_launch_failed, launch, other_start, on_begin, checked_start, start, validate_command,
}

-- A result without an error comes with a process that is ready.
abbrev ReadyIfOk : Started → Type 0
ReadyIfOk (none, q) = q.state ≡ ready
ReadyIfOk (some e, q) = Unit

on_ready-ReadyIfOk : (p : Process) → ReadyIfOk (on_ready (swap_state p starting ready))
unfolding swap_state
on_ready-ReadyIfOk p = ground arith

finish_start-ReadyIfOk : (p : Process) (env : StartEnv) → ReadyIfOk (finish_start p env)
unfolding finish_start
finish_start-ReadyIfOk p env = on_ready-ReadyIfOk (interfere (with_ttl p) env.finishing)

after_health-ReadyIfOk : (env : StartEnv) (r : Health × Process) → ReadyIfOk (after_health env r)
after_health-ReadyIfOk env (passed, p) = finish_start-ReadyIfOk p env
after_health-ReadyIfOk env (_, p) = tt

check_health-ReadyIfOk : (p : Process) (env : StartEnv) → ReadyIfOk (check_health p env)
unfolding check_health
check_health-ReadyIfOk p env =
    if_holds ReadyIfOk (text_eq (trim_space p.settings.check_endpoint) (codes "none"))
      (finish_start-ReadyIfOk p env)
      (if_holds ReadyIfOk env.url_fails tt (
        after_health-ReadyIfOk env (
          health_loop env.fuel (p.health_check_timeout * 1000) env.interval env.checks 0 p 0
            (first_delay env.interval))))

on_launch_failed-ReadyIfOk :
    (r : Process × State × Option SwapError) → ReadyIfOk (on_launch_failed r)
on_launch_failed-ReadyIfOk (q, cur, none) = tt
on_launch_failed-ReadyIfOk (q, cur, some e) = tt

launch-ReadyIfOk : (p : Process) (env : StartEnv) → ReadyIfOk (launch p env)
unfolding launch
launch-ReadyIfOk p env =
    let q = interfere (arm p) env.launching in
    let r = interfere (record q { running = true }) env.delaying in
    if_holds ReadyIfOk env.launch_fails (on_launch_failed-ReadyIfOk (swap_state q starting stopped))
      (if_holds ReadyIfOk env.cancelled tt (check_health-ReadyIfOk r env))

done-ReadyIfOk : (r : Started) → ReadyIfOk r → ReadyIfOk (done r)
done-ReadyIfOk (none, q) h = h
done-ReadyIfOk (some e, q) h = tt

other_start-ReadyIfOk : (q : Process) → ReadyIfOk (other_start q)
other_start-ReadyIfOk q = ground (arith, state_eq_iff q.state ready)

on_begin-ReadyIfOk :
    (env : StartEnv) (r : Process × State × Option SwapError) → ReadyIfOk (on_begin env r)
on_begin-ReadyIfOk env (q, cur, none) = done-ReadyIfOk (launch q env) (launch-ReadyIfOk q env)
on_begin-ReadyIfOk env (q, starting, some expected_state_mismatch) =
    other_start-ReadyIfOk (interfere q env.waiting)
on_begin-ReadyIfOk env (q, _, some _) = tt

checked_start-ReadyIfOk :
    (p : Process) (env : StartEnv) (o : Option Text) → ReadyIfOk (checked_start p env o)
checked_start-ReadyIfOk p env none = tt
checked_start-ReadyIfOk p env (some cmd) =
    if_holds ReadyIfOk (validate_command cmd)
      (on_begin-ReadyIfOk env (swap_state p stopped starting)) tt

start-ReadyIfOk : (p : Process) (env : StartEnv) → ReadyIfOk (start p env)
unfolding start
start-ReadyIfOk p env =
    if_holds ReadyIfOk (text_eq p.settings.proxy []) tt (checked_start-ReadyIfOk p env env.command)

from_ok : (r : Started) → ReadyIfOk r → r.0 ≡ none → r.1.state ≡ ready
from_ok (none, q) h e = h
from_ok (some x, q) h e = cc

-- When `start` returns without an error, the process is ready at that moment, whether this call
-- started it or waited for another one that did, and whatever the other goroutines did meanwhile.
pub start_ok-ready :
    (p : Process) (env : StartEnv) → (start p env).0 ≡ none → (start p env).1.state ≡ ready
start_ok-ready p env e = from_ok (start p env) (start-ReadyIfOk p env) e
