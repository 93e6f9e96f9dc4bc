-- ===== src/Process/Health.antt =====
-- proxy/process.go, the ready check loop of `start`. Times are in milliseconds. What a round meets
-- is an argument: what the other goroutines did, how long the request for the health endpoint took,
-- and how it ended.
use llama_swap.Base.{
  ℕ, zero, suc, ◌+◌, ◌*◌, List, Option, none, some, Bool, if◌then◌else◌, ltb, ◌==◌, ◌&&◌, ◌||◌,
}
use llama_swap.Process.State.{State, stopped, starting, Process, state_eq}
use llama_swap.Process.Stop.{Act, interfere, stop_command}

-- `processHealthCheckRetryInitialDelay`.
abbrev pub retry_initial_delay : ℕ
retry_initial_delay = 200

-- The delay before the second check; `interval` is `healthCheckLoopInterval`.
unfoldable pub first_delay : ℕ → ℕ
first_delay interval =
    if (interval == 0) || ltb retry_initial_delay interval then retry_initial_delay else interval

unfoldable pub next_delay : ℕ → ℕ → ℕ
next_delay interval delay =
    if ltb 0 interval && ltb delay interval
    then (if ltb interval (delay * 2) then interval else delay * 2)
    else delay

pub record Check : Type 0 where
  -- before the round
  pub others : List Act
  pub cancelled : Bool
  -- the request
  pub passed : Bool
  pub took : ℕ
  -- the wait for the next round
  pub cancelled_waiting : Bool
  -- while `stopCommand` waits after the time ran out
  pub stopping_others : List Act

pub data Health : Type 0 where
  passed interrupted exited_early timed_out out_of_fuel blocked : Health

abbrev pub not_starting : State → Health
not_starting stopped = exited_early
not_starting _ = interrupted

abbrev pub given_up : Process → Option Process → Health × Process
given_up p none = (blocked, p)
given_up p (some q) = (timed_out, q)

abbrev pub give_up : Process → List Act → Health × Process
give_up p others = given_up p (stop_command p others)

-- One round, from the test of the context on; `again` is the rest of the loop.
unfoldable pub check_round : ℕ → Check → Process → ℕ → Health × Process → Health × Process
check_round max_duration c q elapsed again =
    if c.cancelled
    then (interrupted, q)
    else if state_eq q.state starting
    then (if ltb max_duration elapsed
        then give_up q c.stopping_others
        else if c.passed
        then (passed, q)
        else if c.cancelled_waiting
        then (interrupted, q)
        else again)
    else (not_starting q.state, q)

-- The loop; `elapsed` is the time since `checkStartTime`.
unfoldable pub health_loop : ℕ → ℕ → ℕ → (ℕ → Check) → ℕ → Process → ℕ → ℕ → Health × Process
health_loop zero max_duration interval checks round p elapsed delay = (out_of_fuel, p)
health_loop (suc fuel) max_duration interval checks round p elapsed delay =
    let c = checks round in
    let q = interfere p c.others in
    let again =
      health_loop fuel max_duration interval checks (suc round) q (elapsed + c.took + delay)
        (next_delay interval delay) in
    check_round max_duration c q elapsed again
