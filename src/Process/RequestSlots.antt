-- ===== src/Process/RequestSlots.antt =====
-- proxy/process.go: what `start` and `ProxyRequest` do to the places of the requests.
use llama_swap.Base.{
  ℕ, zero, suc, ◌+◌, ◌*◌, ◌≡◌, refl, List, [], Option, none, some, true, false, ltb, if_holds,
  arith,
}
use llama_swap.Base.Text.{Text, text_eq, trim_space, codes}
use llama_swap.Process.State.{
  State, stopped, starting, ready, stopping, Process, state_eq, SwapError, expected_state_mismatch,
  swap_state, force_state,
}
use llama_swap.Process.Stop.{
  Act, forced_stop, after_exit, wait_for_cmd, interfere, await_exit, stop_command, arm,
}
use llama_swap.Process.Health.{
  Check, Health, passed, interrupted, given_up, check_round, next_delay, health_loop, first_delay,
}
use llama_swap.Process.Start.{
  StartEnv, Started, with_ttl, on_ready, finish_start, after_health, check_health, on_launch_failed,
  launch, other_start, on_begin, checked_start, start, validate_command,
}
use llama_swap.Process.Request.{RequestEnv, on_start, serve}

-- Two processes with the same places.
pub record SamePlaces (p q : Process) : Type 0 where
  pub slots : q.slots ≡ p.slots
  pub in_flight : q.in_flight ≡ p.in_flight
  pub limit : q.limit ≡ p.limit

pub same_places : (p : Process) → SamePlaces p p
same_places p = record { slots = refl; in_flight = refl; limit = refl }

pub swap_state-SamePlaces : (p : Process) (s t : State) → SamePlaces p (swap_state p s t).0
unfolding swap_state
swap_state-SamePlaces p s t = ground arith

pub forced_stop-SamePlaces :
    (p : Process) (r : Process × State × Option SwapError)
    → SamePlaces p r.0
    → SamePlaces p (forced_stop r)
unfolding force_state
forced_stop-SamePlaces p (q, cur, none) v = v
forced_stop-SamePlaces p (q, cur, some e) v = record {
  slots = v.slots;
  in_flight = v.in_flight;
  limit = v.limit;
}

after_exit-SamePlaces : (s : State) (p : Process) → SamePlaces p (after_exit s p)
unfolding force_state
after_exit-SamePlaces stopping p =
    forced_stop-SamePlaces p (swap_state p stopping stopped)
      (swap_state-SamePlaces p stopping stopped)
after_exit-SamePlaces _ p = record { slots = refl; in_flight = refl; limit = refl }

pub wait_for_cmd-SamePlaces : (p : Process) → SamePlaces p (wait_for_cmd p)
unfolding wait_for_cmd
wait_for_cmd-SamePlaces p =
    let w = after_exit-SamePlaces p.state p in
    record { slots = w.slots; in_flight = w.in_flight; limit = w.limit }

-- All that the others do in a start or a request is allowed.
module _ (Allowed : List Act → Type 0) where
  pub record AllowedCheck (c : Check) : Type 0 where
    pub others : Allowed c.others
    pub stopping : Allowed c.stopping_others

  pub record AllowedStart (env : StartEnv) : Type 0 where
    pub waiting : Allowed env.waiting
    pub launching : Allowed env.launching
    pub delaying : Allowed env.delaying
    pub checks : (k : ℕ) → AllowedCheck (env.checks k)
    pub finishing : Allowed env.finishing

  pub record AllowedRequest (env : RequestEnv) : Type 0 where
    pub start_env : AllowedStart env.start_env
    pub counting : Allowed env.counting
    pub serving : Allowed env.serving
    pub leaving : Allowed env.leaving

-- A property of the places that the allowed acts of the others keep.
module _ (P : Process → Type 0) (Allowed : List Act → Type 0)
    (same : (p q : Process) → SamePlaces p q → P p → P q)
    (interfered : (p : Process) (others : List Act)
      → Allowed others
      → P p
      → P (interfere p others)) where
  -- What holds of the process that a step hands on, or of a process if there is one.
  abbrev Hands : {A : Type 0} → A × Process → Type 0
  Hands r = P r.1

  abbrev IfP : Option Process → Type 0
  IfP none = Unit {0}
  IfP (some q) = P q

  swapped : (p : Process) (s t : State) → P p → P (swap_state p s t).0
  swapped p s t = same p (swap_state p s t).0 (swap_state-SamePlaces p s t)

  await_exit-P : (p : Process) → P p → IfP (await_exit p)
  unfolding await_exit
  await_exit-P p v =
      if_holds IfP p.chan_open
        (if_holds IfP p.running (same p (wait_for_cmd p) (wait_for_cmd-SamePlaces p) v) tt) v

  stop_command-P :
      (p : Process) (others : List Act) → Allowed others → P p → IfP (stop_command p others)
  unfolding stop_command
  stop_command-P p others a v =
      let q : Process = record p { ttl_running = false } in
      let w : P q = same p q (record { slots = refl; in_flight = refl; limit = refl }) v in
      if_holds IfP p.has_upstream (await_exit-P (interfere q others) (interfered q others a w)) w

  given_up-P : (p : Process) (o : Option Process) → P p → IfP o → P (given_up p o).1
  given_up-P p none v w = v
  given_up-P p (some q) v w = w

  check_round-P :
      (max_duration : ℕ) (c : Check) (q : Process) (elapsed : ℕ) (again : Health × Process)
      → Allowed c.stopping_others
      → P q
      → P again.1
      → P (check_round max_duration c q elapsed again).1
  unfolding check_round
  check_round-P max_duration c q elapsed again a v w = if_holds Hands c.cancelled v (
      if_holds Hands (state_eq q.state starting)
        (if_holds Hands (ltb max_duration elapsed)
          (given_up-P q (stop_command q c.stopping_others) v
            (stop_command-P q c.stopping_others a v))
          (if_holds Hands c.passed v (if_holds Hands c.cancelled_waiting v w)))
        v)

  health_loop-P :
      (fuel max_duration interval : ℕ) (checks : ℕ → Check) (round : ℕ) (p : Process)
      (elapsed delay : ℕ)
      → ((k : ℕ) → AllowedCheck Allowed (checks k))
      → P p
      → P (health_loop fuel max_duration interval checks round p elapsed delay).1
  unfolding health_loop
  health_loop-P zero max_duration interval checks round p elapsed delay a v = v
  health_loop-P (suc fuel) max_duration interval checks round p elapsed delay a v =
      let c = checks round in
      let q = interfere p c.others in
      let w = interfered p c.others (a round).others v in
      check_round-P max_duration c q elapsed
        (health_loop fuel max_duration interval checks (suc round) q (elapsed + c.took + delay)
          (next_delay interval delay))
        (a round).stopping w
        (health_loop-P fuel max_duration interval checks (suc round) q (elapsed + c.took + delay)
          (next_delay interval delay) a w)

  on_ready-P : (r : Process × State × Option SwapError) → P r.0 → P (on_ready r).1
  on_ready-P (q, cur, none) v =
      same q (record q { failed_start_count = 0 })
        (record { slots = refl; in_flight = refl; limit = refl }) v
  on_ready-P (q, cur, some e) v = v

  with_ttl-P : (p : Process) → P p → P (with_ttl p)
  with_ttl-P p v =
      if_holds P (ltb 0 p.settings.unload_after)
        (same p (record p { ttl_running = true })
          (record { slots = refl; in_flight = refl; limit = refl }) v)
        v

  finish_start-P :
      (p : Process) (env : StartEnv) → Allowed env.finishing → P p → P (finish_start p env).1
  unfolding finish_start
  finish_start-P p env a v =
      let q = interfere (with_ttl p) env.finishing in
      on_ready-P (swap_state q starting ready)
        (swapped q starting ready (interfered (with_ttl p) env.finishing a (with_ttl-P p v)))

  after_health-P :
      (env : StartEnv) (r : Health × Process)
      → Allowed env.finishing
      → P r.1
      → P (after_health env r).1
  after_health-P env (passed, p) a v = finish_start-P p env a v
  after_health-P env (interrupted, p) a v = v
  after_health-P env (_, p) a v = v

  check_health-P :
      (p : Process) (env : StartEnv) → AllowedStart Allowed env → P p → P (check_health p env).1
  unfolding check_health
  check_health-P p env a v =
      if_holds Hands (text_eq (trim_space p.settings.check_endpoint) (codes "none"))
        (finish_start-P p env a.finishing v)
        (if_holds Hands env.url_fails v (
          after_health-P env _ a.finishing (
            health_loop-P env.fuel (p.health_check_timeout * 1000) env.interval env.checks 0 p 0
              (first_delay env.interval) a.checks v)))

  on_launch_failed-P : (r : Process × State × Option SwapError) → P r.0 → P (on_launch_failed r).1
  unfolding force_state
  on_launch_failed-P (q, cur, none) v = v
  on_launch_failed-P (q, cur, some e) v =
      same q (force_state q stopped) (record { slots = refl; in_flight = refl; limit = refl }) v

  launch-P : (p : Process) (env : StartEnv) → AllowedStart Allowed env → P p → P (launch p env).1
  unfolding launch
  launch-P p env a v =
      let armed = same p (arm p) (record { slots = refl; in_flight = refl; limit = refl }) v in
      let q = interfere (arm p) env.launching in
      let w = interfered (arm p) env.launching a.launching armed in
      let q' : Process = record q { running = true } in
      let r = interfere q' env.delaying in
      let x =
        interfered q' env.delaying a.delaying
          (same q q' (record { slots = refl; in_flight = refl; limit = refl }) w) in
      if_holds Hands env.launch_fails
        (on_launch_failed-P (swap_state q starting stopped) (swapped q starting stopped w))
        (if_holds Hands env.cancelled x (check_health-P r env a x))

  other_start-P : (q : Process) → P q → P (other_start q).1
  other_start-P q v = if_holds Hands (state_eq q.state ready) v v

  on_begin-P :
      (env : StartEnv) (r : Process × State × Option SwapError)
      → AllowedStart Allowed env
      → P r.0
      → P (on_begin env r).1
  on_begin-P env (q, cur, none) a v =
      let started = (launch q env).1 in
      same started (record started { wait_starting = _ })
        (record { slots = refl; in_flight = refl; limit = refl }) (launch-P q env a v)
  on_begin-P env (q, starting, some expected_state_mismatch) a v =
      other_start-P (interfere q env.waiting) (interfered q env.waiting a.waiting v)
  on_begin-P env (q, _, some _) a v = v

  checked_start-P :
      (p : Process) (env : StartEnv) (o : Option Text)
      → AllowedStart Allowed env
      → P p
      → P (checked_start p env o).1
  checked_start-P p env none a v = v
  checked_start-P p env (some cmd) a v =
      if_holds Hands (validate_command cmd)
        (on_begin-P env (swap_state p stopped starting) a (swapped p stopped starting v)) v

  start-P : (p : Process) (env : StartEnv) → AllowedStart Allowed env → P p → P (start p env).1
  unfolding start
  start-P p env a v =
      if_holds Hands (text_eq p.settings.proxy []) v (checked_start-P p env env.command a v)

  on_start-P : (env : RequestEnv) (r : Started) → Allowed env.serving → P r.1 → P (on_start env r).1
  on_start-P env (none, q) a v = interfered q env.serving a v
  on_start-P env (some e, q) a v = v

  pub serve-P :
      (p : Process) (env : RequestEnv) → AllowedRequest Allowed env → P p → P (serve p env).1
  unfolding serve
  serve-P p env a v =
      if_holds Hands (state_eq p.state ready) (interfered p env.serving a.serving v)
        (on_start-P env (start p env.start_env) a.serving (start-P p env.start_env a.start_env v))
