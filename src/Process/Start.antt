-- ===== src/Process/Start.antt =====
-- proxy/process.go: `start`. What the operating system and the other goroutines do is an argument.
use llama_swap.Base.{
  ℕ, ◌-◌, ◌*◌, List, [], ◌∷◌, Option, none, some, Bool, true, false, if◌then◌else◌, ltb,
}
use llama_swap.Base.Text.{Text, codes, text_eq, contains_text, trim_space}
use llama_swap.Process.State.{
  State, stopped, starting, ready, state_eq, Process, SwapError, expected_state_mismatch,
  swap_state, force_state,
}
use llama_swap.Process.Stop.{Act, interfere, arm}
use llama_swap.Process.Health.{Check, Health, passed, first_delay, health_loop}

abbrev pub dangerous_patterns : List Text
dangerous_patterns =
    codes ";"
    ∷ codes "&&"
    ∷ codes "||"
    ∷ codes "|"
    ∷ codes "`"
    ∷ codes "$("
    ∷ codes "$"
    ∷ (10 ∷ [])
    ∷ (13 ∷ [])
    ∷ (9 ∷ [])
    ∷ codes ">"
    ∷ codes "<"
    ∷ codes "*"
    ∷ codes "?"
    ∷ codes "["
    ∷ codes "]"
    ∷ codes "{"
    ∷ codes "}"
    ∷ codes "&"
    ∷ []

unfoldable pub contains_any : Text → List Text → Bool
contains_any cmd [] = false
contains_any cmd (d ∷ ds) = if contains_text cmd d then true else contains_any cmd ds

-- `validateCommand`: true if it returns no error.
unfoldable pub validate_command : Text → Bool
validate_command cmd =
    if text_eq cmd [] then false else if contains_any cmd dangerous_patterns then false else true

pub data StartError : Type 0 where
  proxy_missing bad_command invalid_command : StartError
  -- another `start` was under way and did not reach `ready`
  other_start_failed : State → StartError
  wrong_state : State → StartError
  launch_failed launch_failed_and_swap_failed startup_cancelled bad_health_url : StartError
  health : Health → StartError
  not_ready : State → SwapError → StartError

pub record StartEnv : Type 0 where
  -- `SanitizedCommand`: the first argument, or an error
  pub command : Option Text
  -- while another goroutine's start is waited for
  pub waiting : List Act
  -- up to the launch, and whether it fails
  pub launching : List Act
  pub launch_fails : Bool
  -- in the delay before the first check, and whether the context is cancelled in it
  pub delaying : List Act
  pub cancelled : Bool
  -- `url.JoinPath`
  pub url_fails : Bool
  -- the ready checks
  pub interval : ℕ
  pub checks : ℕ → Check
  pub fuel : ℕ
  -- up to the last change of state
  pub finishing : List Act

abbrev pub Started : Type 0
Started = Option StartError × Process

-- The deferred `waitStarting.Done()`.
abbrev pub done : Started → Started
done (e, p) = (e, record p { wait_starting = p.wait_starting - 1 })

-- The end: the TTL goroutine, if there is a TTL, and the change to `ready`.
abbrev pub with_ttl : Process → Process
with_ttl p = if ltb 0 p.settings.unload_after then record p { ttl_running = true } else p

abbrev pub on_ready : Process × State × Option SwapError → Started
on_ready (q, cur, none) = (none, record q { failed_start_count = 0 })
on_ready (q, cur, some e) = (some (not_ready cur e), q)

unfoldable pub finish_start : Process → StartEnv → Started
finish_start p env = on_ready (swap_state (interfere (with_ttl p) env.finishing) starting ready)

abbrev pub after_health : StartEnv → Health × Process → Started
after_health env (passed, p) = finish_start p env
after_health env (h, p) = (some (health h), p)

-- From the end of the initial delay on.
unfoldable pub check_health : Process → StartEnv → Started
check_health p env =
    if text_eq (trim_space p.settings.check_endpoint) (codes "none")
    then finish_start p env
    else if env.url_fails
    then (some bad_health_url, p)
    else after_health env (
        health_loop env.fuel (p.health_check_timeout * 1000) env.interval env.checks 0 p 0
          (first_delay env.interval))

abbrev pub on_launch_failed : Process × State × Option SwapError → Started
on_launch_failed (q, cur, none) = (some launch_failed, q)
on_launch_failed (q, cur, some e) = (some launch_failed_and_swap_failed, force_state q stopped)

-- From `cmd.Start` on.
unfoldable pub launch : Process → StartEnv → Started
launch p env =
    let q = interfere (arm p) env.launching in
    if env.launch_fails
    then on_launch_failed (swap_state q starting stopped)
    else (let r = interfere (record q { running = true }) env.delaying in
        if env.cancelled then (some startup_cancelled, r) else check_health r env)

abbrev pub other_start : Process → Started
other_start q = if state_eq q.state ready then (none, q) else (some (other_start_failed q.state), q)

abbrev pub on_begin : StartEnv → Process × State × Option SwapError → Started
on_begin env (q, cur, none) = done (launch q env)
on_begin env (q, starting, some expected_state_mismatch) = other_start (interfere q env.waiting)
on_begin env (q, cur, some e) = (some (wrong_state cur), q)

abbrev pub checked_start : Process → StartEnv → Option Text → Started
checked_start p env none = (some bad_command, p)
checked_start p env (some cmd) =
    if validate_command cmd
    then on_begin env (swap_state p stopped starting)
    else (some invalid_command, p)

unfoldable pub start : Process → StartEnv → Started
start p env =
    if text_eq p.settings.proxy [] then (some proxy_missing, p) else checked_start p env env.command
