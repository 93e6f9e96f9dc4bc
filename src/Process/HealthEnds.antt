-- ===== src/Process/HealthEnds.antt =====
-- proxy/process.go: the ready check loop ends, and what it means that it passed.
use llama_swap.Base.{
  ℕ, zero, suc, ◌+◌, ◌*◌, ◌≤◌, ◌<◌, ◌≡◌, ◌≢◌, List, Option, none, some, true, arith, inl, inr, ◌⊎◌,
}
use llama_swap.Process.State.{State, stopped, starting, Process}
use llama_swap.Process.Stop.{Act, interfere, stop_command}
use llama_swap.Process.Walks.{state_eq_iff}
use llama_swap.Process.Health.{
  Check, Health, passed, out_of_fuel, first_delay, next_delay, not_starting, give_up, given_up,
  check_round, health_loop,
}

-- The delay grows from round to round until it is the interval, which it never passes, and it is
-- never shorter than the first delay, which is positive and at most 200 ms.
pub next_delay_bounds :
    (interval delay : ℕ)
    → (0 < first_delay interval)
      × (first_delay interval ≤ 200)
      × (delay ≤ next_delay interval delay)
      × ((next_delay interval delay ≤ interval) ⊎ (next_delay interval delay ≡ delay))
unfolding first_delay next_delay
next_delay_bounds interval delay = ground arith

not_starting-ne : (s : State) → not_starting s ≢ out_of_fuel
not_starting-ne stopped = λ e. cc
not_starting-ne _ = λ e. cc

given_up-ne : (p : Process) (o : Option Process) → (given_up p o).0 ≢ out_of_fuel
given_up-ne p none = λ e. cc
given_up-ne p (some q) = λ e. cc

give_up-ne : (p : Process) (others : List Act) → (give_up p others).0 ≢ out_of_fuel
give_up-ne p others = given_up-ne p (stop_command p others)

-- A round ends the loop if the time is over, or if the rest of the loop ends.
check_round-ne :
    (max_duration : ℕ) (c : Check) (q : Process) (elapsed : ℕ) (again : Health × Process)
    → (max_duration < elapsed) ⊎ (again.0 ≢ out_of_fuel)
    → (check_round max_duration c q elapsed again).0 ≢ out_of_fuel
unfolding check_round
check_round-ne max_duration c q elapsed again h =
    ground (arith, give_up-ne q c.stopping_others, not_starting-ne q.state)

-- Enough rounds: `fuel` of them cover more than the time allowed.
health_loop-ends_from :
    (fuel max_duration interval : ℕ) (checks : ℕ → Check) (round : ℕ) (p : Process)
    (elapsed delay : ℕ)
    → max_duration < elapsed + fuel * first_delay interval
    → first_delay interval ≤ delay
    → (health_loop (suc fuel) max_duration interval checks round p elapsed delay).0 ≢ out_of_fuel
unfolding health_loop
health_loop-ends_from zero max_duration interval checks round p elapsed delay m d =
    let c = checks round in
    check_round-ne max_duration c (interfere p c.others) elapsed (out_of_fuel, interfere p c.others)
      (inl (omega arith))
health_loop-ends_from (suc fuel) max_duration interval checks round p elapsed delay m d =
    let c = checks round in
    let q = interfere p c.others in
    let later = elapsed + c.took + delay in
    let grown = (next_delay_bounds interval delay).2 in
    let more : suc fuel * first_delay interval
        ≡ first_delay interval + fuel * first_delay interval =
      omega arith in
    check_round-ne max_duration c q elapsed
      (health_loop (suc fuel) max_duration interval checks (suc round) q later
        (next_delay interval delay))
      (inr (
        health_loop-ends_from fuel max_duration interval checks (suc round) q later
          (next_delay interval delay) (omega arith) (omega arith)))

-- Whatever the rounds meet, the ready check loop of `start` never runs out of rounds, if there are
-- more of them than the time allowed has first delays.
pub health_loop-ends :
    (fuel max_duration interval : ℕ) (checks : ℕ → Check) (p : Process)
    → max_duration < fuel * first_delay interval
    → (health_loop (suc fuel) max_duration interval checks 0 p 0 (first_delay interval)).0
      ≢ out_of_fuel
health_loop-ends fuel max_duration interval checks p m =
    health_loop-ends_from fuel max_duration interval checks 0 p 0 (first_delay interval)
      (omega arith) (omega arith)

given_up-ne_passed : (p : Process) (o : Option Process) → (given_up p o).0 ≢ passed
given_up-ne_passed p none = λ e. cc
given_up-ne_passed p (some q) = λ e. cc

give_up-ne_passed : (p : Process) (others : List Act) → (give_up p others).0 ≢ passed
give_up-ne_passed p others = given_up-ne_passed p (stop_command p others)

not_starting-ne_passed : (s : State) → not_starting s ≢ passed
not_starting-ne_passed stopped = λ e. cc
not_starting-ne_passed _ = λ e. cc

check_round-passed :
    (max_duration : ℕ) (c : Check) (q : Process) (elapsed : ℕ) (again : Health × Process)
    → (check_round max_duration c q elapsed again).0 ≡ passed
    → ((q.state ≡ starting)
        × (c.passed ≡ true)
        × (elapsed ≤ max_duration)
        × ((check_round max_duration c q elapsed again).1 ≡ q))
      ⊎ ((check_round max_duration c q elapsed again ≡ again) × (again.0 ≡ passed))
unfolding check_round
check_round-passed max_duration c q elapsed again h = ground (
  arith,
  give_up-ne_passed q c.stopping_others,
  not_starting-ne_passed q.state,
  state_eq_iff q.state starting,
)

-- The loop passes only in a round in which the health endpoint answered, and with the process still
-- `starting` at the beginning of that round: it hands on a process in that state.
pub health_loop-passed :
    (fuel max_duration interval : ℕ) (checks : ℕ → Check) (round : ℕ) (p : Process)
    (elapsed delay : ℕ)
    → (health_loop fuel max_duration interval checks round p elapsed delay).0 ≡ passed
    → ((health_loop fuel max_duration interval checks round p elapsed delay).1.state ≡ starting)
      × ((k : ℕ) × (round ≤ k) × ((checks k).passed ≡ true))
unfolding health_loop
health_loop-passed zero max_duration interval checks round p elapsed delay h = cc
health_loop-passed (suc fuel) max_duration interval checks round p elapsed delay h =
    let c = checks round in
    let q = interfere p c.others in
    let again =
      health_loop fuel max_duration interval checks (suc round) q (elapsed + c.took + delay)
        (next_delay interval delay) in
    elim (check_round-passed max_duration c q elapsed again h) [
      | inl (s, ok, t, e) ↦ (rw e s, (round, omega arith, ok))
      | inr (e, ok) ↦
          let (s, (k, le, found)) =
            health_loop-passed fuel max_duration interval checks (suc round) q
              (elapsed + c.took + delay) (next_delay interval delay) ok in
          (rw e s, (k, omega arith, found))
    ]
