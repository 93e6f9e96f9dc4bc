-- ===== src/Process/CalmStart.antt =====
-- proxy/process.go: `start` of a stopped process, when no other goroutine acts on it meanwhile.
use llama_swap.Base.{
  ℕ, suc, ◌*◌, ◌<◌, ◌≡◌, ◌≢◌, refl, sym, subst, ◌∙◌, [], Option, none, some, true, false, arith,
  if_holds,
}
use llama_swap.Base.Text.{Text, text_eq, trim_space, codes}
use llama_swap.Process.State.{stopped, starting, Process, state_eq, is_valid_transition, swap_state}
use llama_swap.Process.Stop.{interfere, arm}
use llama_swap.Process.Health.{
  Health, passed, timed_out, out_of_fuel, interrupted, exited_early, blocked, health_loop,
  first_delay,
}
use llama_swap.Process.HealthEnds.{health_loop-ends}
use llama_swap.Process.Start.{
  Started, done, finish_start, after_health, check_health, on_launch_failed, launch, start,
  validate_command, checked_start,
}
use llama_swap.Process.Calm.{
  Outcome, calm, calm_check, Runs, IsReady, IsStopped, Keeps, Keeps-refl, CalmEnd, calm_loop,
}

-- How a start can end: ready with no failed start counted, or stopped with an error.
abbrev pub StartEnd : Process → Started → Type 0
StartEnd p (none, q) = IsReady q × Keeps p q × (q.failed_start_count ≡ 0)
StartEnd p (some e, q) = IsStopped q × Keeps p q

finish_start-End :
    (o : Outcome) (p : Process) → Runs p → p.state ≡ starting → StartEnd p (finish_start p (calm o))
unfolding finish_start interfere swap_state state_eq is_valid_transition
finish_start-End o p r e = ground arith

after_health-End :
    (o : Outcome) (p : Process) (r : Health × Process)
    → Runs p
    → p.state ≡ starting
    → CalmEnd p r
    → r.0 ≢ out_of_fuel
    → StartEnd p (after_health (calm o) r)
after_health-End o p (passed, q) r e h n =
    subst (λ (x : Process). StartEnd p (after_health (calm o) (passed, x))) (sym h)
      (finish_start-End o p r e)
after_health-End o p (timed_out, q) r e h n = h
after_health-End o p (out_of_fuel, q) r e h n = absurd (n refl)
after_health-End o p (interrupted, q) r e h n = absurd h
after_health-End o p (exited_early, q) r e h n = absurd h
after_health-End o p (blocked, q) r e h n = absurd h

-- The rounds that cover the time allowed for the checks.
abbrev pub Enough : Outcome → Process → Type 0
Enough o p =
    (f : ℕ) × (o.fuel ≡ suc f) × (p.health_check_timeout * 1000 < f * first_delay o.interval)

check_health-End :
    (o : Outcome) (p : Process)
    → Runs p
    → p.state ≡ starting
    → Enough o p
    → StartEnd p (check_health p (calm o))
unfolding check_health
check_health-End o p r e (f, fuel, enough) =
    let n = p.health_check_timeout * 1000 in
    if_holds (StartEnd p) (text_eq (trim_space p.settings.check_endpoint) (codes "none"))
      (finish_start-End o p r e)
      (after_health-End o p
        (health_loop o.fuel n o.interval (calm_check o) 0 p 0 (first_delay o.interval)) r e
        (calm_loop o o.fuel n 0 p 0 (first_delay o.interval) r e)
        (rw fuel (health_loop-ends f n o.interval (calm_check o) p enough)))

pub Keeps-trans : {p q r : Process} → Keeps p q → Keeps q r → Keeps p r
Keeps-trans h k = record {
  slots = k.slots ∙ h.slots;
  in_flight = k.in_flight ∙ h.in_flight;
  limit = k.limit ∙ h.limit;
  wait_starting = k.wait_starting ∙ h.wait_starting;
  settings = k.settings ∙ h.settings;
  timeout = k.timeout ∙ h.timeout;
}

StartEnd-trans : (p q : Process) (r : Started) → Keeps p q → StartEnd q r → StartEnd p r
StartEnd-trans p q (none, x) h (a, k, z) = (a, Keeps-trans h k, z)
StartEnd-trans p q (some e, x) h (a, k) = (a, Keeps-trans h k)

launch_failed-End :
    (p : Process)
    → p.running ≡ false
    → p.state ≡ starting
    → StartEnd p (on_launch_failed (swap_state (arm p) starting stopped))
unfolding swap_state state_eq is_valid_transition
launch_failed-End p d e = ground arith

launch-End :
    (o : Outcome) (p : Process)
    → p.running ≡ false
    → p.state ≡ starting
    → Enough o p
    → StartEnd p (launch p (calm o))
unfolding launch interfere
launch-End o p d e (f, fuel, enough) =
    let q : Process = record (arm p) { running = true } in
    if_holds (StartEnd p) o.launch_fails (launch_failed-End p d e) (
      StartEnd-trans p q (check_health q (calm o))
        (record {
          slots = refl;
          in_flight = refl;
          limit = refl;
          wait_starting = refl;
          settings = refl;
          timeout = refl;
        })
        (check_health-End o q (record { upstream = refl; open_chan = refl; live = refl }) e
          (f, fuel, enough)))

-- The process that `swapState` hands to the rest of `start`.
begun : Process → Process
begun p = (swap_state p stopped starting).0

done-End :
    (p : Process) (r : Started) → p.state ≡ stopped → StartEnd (begun p) r → StartEnd p (done r)
unfolding begun swap_state state_eq is_valid_transition
done-End p (none, q) s (a, k, z) = (
  record {
    runs = record { upstream = a.runs.upstream; open_chan = a.runs.open_chan; live = a.runs.live };
    at_ready = a.at_ready;
  },
  ground arith,
  z,
)
done-End p (some e, q) s (a, k) =
    (record { dead = a.dead; at_stopped = a.at_stopped }, ground arith)

begin-eq :
    (p : Process) → p.state ≡ stopped → swap_state p stopped starting ≡ (begun p, starting, none)
unfolding begun swap_state state_eq is_valid_transition
begin-eq p s = ground arith

begun-starting :
    (p : Process)
    → IsStopped p
    → (((begun p).running ≡ false) × ((begun p).state ≡ starting))
      × ((begun p).health_check_timeout ≡ p.health_check_timeout)
unfolding begun swap_state state_eq is_valid_transition
begun-starting p s = ground arith

checked_start-End :
    (o : Outcome) (p : Process) (c : Option Text)
    → IsStopped p
    → Enough o p
    → StartEnd p (checked_start p (calm o) c)
checked_start-End o p none s enough = (s, Keeps-refl p)
checked_start-End o p (some cmd) s (f, fuel, enough) =
    let q = begun p in
    let ((d, e), t) = begun-starting p s in
    if_holds (StartEnd p) (validate_command cmd)
      (rw (begin-eq p s.at_stopped)
        (done-End p (launch q (calm o)) s.at_stopped (launch-End o q d e (f, fuel, rw t enough))))
      (s, Keeps-refl p)

-- A start of a stopped process that nobody disturbs ends in one of two ways, if it is given the
-- rounds that cover the time allowed for the checks: without an error, the process ready, its
-- command running and no failed start counted; or with an error, the process stopped and no command
-- running. Either way the wait group is back where it was, as are the places of the requests.
pub start-StartEnd :
    (o : Outcome) (p : Process) → IsStopped p → Enough o p → StartEnd p (start p (calm o))
unfolding start
start-StartEnd o p s enough =
    if_holds (StartEnd p) (text_eq p.settings.proxy []) (s, Keeps-refl p)
      (checked_start-End o p o.command s enough)
