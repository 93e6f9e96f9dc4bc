-- ===== src/Process/Calm.antt =====
-- proxy/process.go: the methods when no other goroutine acts on the process meanwhile.
use llama_swap.Base.{
  ℕ, zero, suc, ◌+◌, ◌≡◌, refl, [], Option, some, Bool, true, false, ltb, arith, if_holds,
}
use llama_swap.Base.Text.{Text}
use llama_swap.Process.State.{
  stopped, starting, ready, stopping, Process, state_eq, is_valid_transition, swap_state,
  force_state,
}
use llama_swap.Process.Walks.{state_eq_iff}
use llama_swap.Process.Stop.{wait_for_cmd, interfere, await_exit, stop_command}
use llama_swap.Process.Health.{
  Check, Health, passed, timed_out, out_of_fuel, check_round, health_loop, next_delay,
}
use llama_swap.Process.Start.{StartEnv}

-- What the operating system decides of a start.
pub record Outcome : Type 0 where
  pub command : Option Text
  pub launch_fails : Bool
  pub interval : ℕ
  pub passes : ℕ → Bool
  pub takes : ℕ → ℕ
  pub fuel : ℕ

abbrev pub calm_check : Outcome → ℕ → Check
calm_check o k = record {
  others = [];
  cancelled = false;
  passed = o.passes k;
  took = o.takes k;
  cancelled_waiting = false;
  stopping_others = [];
}

-- The URL of the health endpoint can be joined, since a configuration that loads has a proxy that
-- `url.Parse` takes.
abbrev pub calm : Outcome → StartEnv
calm o = record {
  command = o.command;
  waiting = [];
  launching = [];
  launch_fails = o.launch_fails;
  delaying = [];
  cancelled = false;
  url_fails = false;
  interval = o.interval;
  checks = calm_check o;
  fuel = o.fuel;
  finishing = [];
}

-- The command runs, and the channel will be closed when it exits.
pub record Runs (p : Process) : Type 0 where
  pub upstream : p.has_upstream ≡ true
  pub open_chan : p.chan_open ≡ true
  pub live : p.running ≡ true

pub record IsReady (p : Process) : Type 0 where
  pub runs : Runs p
  pub at_ready : p.state ≡ ready

pub record IsStopped (p : Process) : Type 0 where
  pub dead : p.running ≡ false
  pub at_stopped : p.state ≡ stopped

-- What `stopCommand` makes of a process whose command runs.
abbrev pub ended : Process → Process
ended p = wait_for_cmd (record p { ttl_running = false })

-- What a method leaves alone: the places of the requests, the settings, the timeout and the wait
-- group.
pub record Keeps (p q : Process) : Type 0 where
  pub slots : q.slots ≡ p.slots
  pub in_flight : q.in_flight ≡ p.in_flight
  pub limit : q.limit ≡ p.limit
  pub wait_starting : q.wait_starting ≡ p.wait_starting
  pub settings : q.settings ≡ p.settings
  pub timeout : q.health_check_timeout ≡ p.health_check_timeout

pub Keeps-refl : (p : Process) → Keeps p p
Keeps-refl p = record {
  slots = refl;
  in_flight = refl;
  limit = refl;
  wait_starting = refl;
  settings = refl;
  timeout = refl;
}

pub stop_command-Runs : (p : Process) → Runs p → stop_command p [] ≡ some (ended p)
unfolding stop_command await_exit interfere
stop_command-Runs p r = ground arith

ended_from_starting : (p : Process) → p.state ≡ starting → IsStopped (ended p)
unfolding wait_for_cmd force_state
ended_from_starting p e = ground arith

pub ended_from_stopping : (p : Process) → p.state ≡ stopping → IsStopped (ended p)
unfolding wait_for_cmd force_state swap_state state_eq is_valid_transition
ended_from_stopping p e = ground arith

pub ended-Keeps : (p : Process) → Keeps p (ended p)
unfolding wait_for_cmd force_state swap_state state_eq is_valid_transition
ended-Keeps p = ground arith

-- How the ready checks of a start can end, begun with `p`.
abbrev pub CalmEnd : Process → Health × Process → Type 0
CalmEnd p (passed, q) = q ≡ p
CalmEnd p (timed_out, q) = IsStopped q × Keeps p q
CalmEnd p (out_of_fuel, q) = Unit
CalmEnd p (_, q) = ⊥

calm_round :
    (o : Outcome) (max_duration round : ℕ) (p : Process) (elapsed : ℕ) (again : Health × Process)
    → Runs p
    → p.state ≡ starting
    → CalmEnd p again
    → CalmEnd p (check_round max_duration (calm_check o round) p elapsed again)
unfolding check_round
calm_round o max_duration round p elapsed again r e h =
    rw ((state_eq_iff p.state starting).1 e, stop_command-Runs p r)
      (if_holds (CalmEnd p) (ltb max_duration elapsed) (ended_from_starting p e, ended-Keeps p)
        (if_holds (CalmEnd p) (o.passes round) refl h))

-- The ready checks either pass and leave the process as it is, or stop it.
pub calm_loop :
    (o : Outcome) (fuel max_duration round : ℕ) (p : Process) (elapsed delay : ℕ)
    → Runs p
    → p.state ≡ starting
    → CalmEnd p (health_loop fuel max_duration o.interval (calm_check o) round p elapsed delay)
unfolding health_loop interfere
calm_loop o zero max_duration round p elapsed delay r e = tt
calm_loop o (suc fuel) max_duration round p elapsed delay r e =
    calm_round o max_duration round p elapsed
      (health_loop fuel max_duration o.interval (calm_check o) (suc round) p
        (elapsed + o.takes round + delay) (next_delay o.interval delay))
      r e
      (calm_loop o fuel max_duration (suc round) p (elapsed + o.takes round + delay)
        (next_delay o.interval delay) r e)
