-- ===== src/Process/HealthResult.antt =====
-- proxy/process.go: what the ready check loop of `start` ends with.
use llama_swap.Base.{
  ℕ, zero, suc, ◌+◌, ◌*◌, ◌≡◌, ◌<◌, ◌≤◌, refl, List, [], ◌∷◌, Option, none, some, Bool, true, false,
  if_holds, if_true, if◌then◌else◌, subst, sym, inl, inr, ◌⊎◌, ltb, all, arith, Bool-cases,
}
use llama_swap.Process.State.{
  State, stopped, starting, ready, stopping, shutdown, Process, state_eq, SwapError, swap_state,
  force_state,
}
use llama_swap.Process.Walks.{state_eq_iff}
use llama_swap.Process.Stop.{
  Act, swaps, acquires, counts, uncounts, gives_back, exits, arms, launches, fails_to_launch,
  shuts_down, forced_stop, after_exit, wait_for_cmd, acquire, count_in, count_out, give_back, act,
  interfere, await_exit, stop_command,
}
use llama_swap.Process.Health.{
  Check, Health, passed, interrupted, exited_early, timed_out, out_of_fuel, blocked, first_delay,
  next_delay, not_starting, given_up, check_round, health_loop,
}
use llama_swap.Process.HealthEnds.{next_delay_bounds}

-- A process whose command was launched: the channel is open as long as the command runs.
pub record IsLaunched (p : Process) : Type 0 where
  pub upstream : p.has_upstream ≡ true
  pub open_chan : p.chan_open ≡ p.running

-- No other start makes a new channel.
abbrev pub arms_nothing : Act → Bool
arms_nothing arms = false
arms_nothing _ = true

forced_stop_lem :
    (r : Process × State × Option SwapError) → IsLaunched r.0 → IsLaunched (forced_stop r)
unfolding force_state
forced_stop_lem (q, cur, none) v = v
forced_stop_lem (q, cur, some e) v = record { upstream = v.upstream; open_chan = v.open_chan }

swap_state-IsLaunched : (p : Process) (s t : State) → IsLaunched p → IsLaunched (swap_state p s t).0
unfolding swap_state
swap_state-IsLaunched p s t v = ground arith

-- Once the command has exited it does not run, and the channel is closed.
wait_for_cmd-IsLaunched :
    (p : Process) → IsLaunched p → IsLaunched (wait_for_cmd p) × ((wait_for_cmd p).running ≡ false)
unfolding wait_for_cmd force_state
wait_for_cmd-IsLaunched p v = go p.state
  where
    go :
        (s : State)
        → IsLaunched (record (after_exit s p) { chan_open = false; running = false })
          × (false ≡ false)
    go stopping =
        let w =
          forced_stop_lem (swap_state p stopping stopped)
            (swap_state-IsLaunched p stopping stopped v) in
        (record { upstream = w.upstream; open_chan = refl }, refl)
    go _ = (record { upstream = v.upstream; open_chan = refl }, refl)

act-IsLaunched :
    (p : Process) (a : Act) → arms_nothing a ≡ true → IsLaunched p → IsLaunched (act p a)
unfolding act acquire count_in count_out give_back force_state
act-IsLaunched p (swaps s t) q v = swap_state-IsLaunched p s t v
act-IsLaunched p acquires q v = ground arith
act-IsLaunched p counts q v = ground arith
act-IsLaunched p (uncounts now) q v = ground arith
act-IsLaunched p gives_back q v = ground arith
act-IsLaunched p exits q v = if_holds IsLaunched p.running (wait_for_cmd-IsLaunched p v).0 v
act-IsLaunched p arms q v = cc
act-IsLaunched p launches q v = ground arith
act-IsLaunched p fails_to_launch q v =
    forced_stop_lem (swap_state p starting stopped) (swap_state-IsLaunched p starting stopped v)
act-IsLaunched p shuts_down q v = record { upstream = v.upstream; open_chan = v.open_chan }

interfere-IsLaunched :
    (p : Process) (others : List Act)
    → all arms_nothing others ≡ true
    → IsLaunched p
    → IsLaunched (interfere p others)
unfolding interfere
interfere-IsLaunched p [] q v = v
interfere-IsLaunched p (a ∷ others) q v =
    let (first, rest) : (arms_nothing a ≡ true) × (all arms_nothing others ≡ true) = ground arith in
    interfere-IsLaunched (act p a) others rest (act-IsLaunched p a first v)

-- A process, if there is one, whose command is gone.
abbrev IsGone : Option Process → Type 0
IsGone none = ⊥
IsGone (some q) = q.running ≡ false

if_runs-IsGone :
    (open_chan runs : Bool) (p q : Process)
    → open_chan ≡ runs
    → p.running ≡ runs
    → q.running ≡ false
    → IsGone (if open_chan then (if runs then some q else none) else some p)
if_runs-IsGone true true p q e r h = h
if_runs-IsGone true false p q e r h = cc
if_runs-IsGone false true p q e r h = cc
if_runs-IsGone false false p q e r h = r

await_exit-IsGone : (p : Process) → IsLaunched p → IsGone (await_exit p)
unfolding await_exit
await_exit-IsGone p v =
    if_runs-IsGone p.chan_open p.running p (wait_for_cmd p) v.open_chan refl
      (wait_for_cmd-IsLaunched p v).1

stop_command-IsGone :
    (p : Process) (others : List Act)
    → all arms_nothing others ≡ true
    → IsLaunched p
    → IsGone (stop_command p others)
unfolding stop_command
stop_command-IsGone p others a v =
    let q : Process = record p { ttl_running = false } in
    let w : IsLaunched q = record { upstream = v.upstream; open_chan = v.open_chan } in
    let r = interfere q others in
    subst IsGone (sym (if_true q.has_upstream (await_exit r) (some q) v.upstream))
      (await_exit-IsGone r (interfere-IsLaunched q others a w))

-- How the loop ends: it passed with the process still starting, another goroutine ended the start
-- or the context was cancelled, the command exited and the process is stopped, or the time ran out
-- and the command is gone. It neither waits for ever nor runs out of rounds.
abbrev pub LoopEnd : Health × Process → Type 0
LoopEnd (passed, q) = q.state ≡ starting
LoopEnd (interrupted, q) = Unit
LoopEnd (exited_early, q) = q.state ≡ stopped
LoopEnd (timed_out, q) = q.running ≡ false
LoopEnd (out_of_fuel, q) = ⊥
LoopEnd (blocked, q) = ⊥

given_up-LoopEnd : (p : Process) (o : Option Process) → IsGone o → LoopEnd (given_up p o)
given_up-LoopEnd p none h = h
given_up-LoopEnd p (some q) h = h

not_starting-LoopEnd : (q : Process) → LoopEnd (not_starting q.state, q)
not_starting-LoopEnd q = go q.state refl
  where
    go : (s : State) → q.state ≡ s → LoopEnd (not_starting s, q)
    go stopped e = e
    go starting e = tt
    go ready e = tt
    go stopping e = tt
    go shutdown e = tt

-- What the others do in a round.
pub record ArmsNothing (c : Check) : Type 0 where
  pub others : all arms_nothing c.others ≡ true
  pub stopping : all arms_nothing c.stopping_others ≡ true

check_round-LoopEnd :
    (max_duration : ℕ) (c : Check) (q : Process) (elapsed : ℕ) (again : Health × Process)
    → ArmsNothing c
    → IsLaunched q
    → (max_duration < elapsed) ⊎ LoopEnd again
    → LoopEnd (check_round max_duration c q elapsed again)
unfolding check_round
check_round-LoopEnd max_duration c q elapsed again a v h =
    if_holds LoopEnd c.cancelled tt (elim (Bool-cases (state_eq q.state starting)) [
      | inr other ↦ rw other (not_starting-LoopEnd q)
      | inl begun ↦ rw begun (elim (Bool-cases (ltb max_duration elapsed)) [
        | inl over ↦ rw over (
            given_up-LoopEnd q (stop_command q c.stopping_others)
              (stop_command-IsGone q c.stopping_others a.stopping v))
        | inr in_time ↦ rw in_time (
            if_holds LoopEnd c.passed ((state_eq_iff q.state starting).0 begun)
              (if_holds LoopEnd c.cancelled_waiting tt (goes_on in_time h)))
      ])
    ])
  where
    goes_on :
        ltb max_duration elapsed ≡ false → (max_duration < elapsed) ⊎ LoopEnd again → LoopEnd again
    goes_on t (inl over) = absurd (ground arith)
    goes_on t (inr e) = e

health_loop-LoopEnd_from :
    (fuel max_duration interval : ℕ) (checks : ℕ → Check) (round : ℕ) (p : Process)
    (elapsed delay : ℕ)
    → ((k : ℕ) → ArmsNothing (checks k))
    → IsLaunched p
    → max_duration < elapsed + fuel * first_delay interval
    → first_delay interval ≤ delay
    → LoopEnd (health_loop (suc fuel) max_duration interval checks round p elapsed delay)
unfolding health_loop
health_loop-LoopEnd_from zero max_duration interval checks round p elapsed delay a v m d =
    let c = checks round in
    let q = interfere p c.others in
    check_round-LoopEnd max_duration c q elapsed (out_of_fuel, q) (a round)
      (interfere-IsLaunched p c.others (a round).others v) (inl (omega arith))
health_loop-LoopEnd_from (suc fuel) max_duration interval checks round p elapsed delay a v m d =
    let c = checks round in
    let q = interfere p c.others in
    let w = interfere-IsLaunched p c.others (a round).others v in
    let later = elapsed + c.took + delay in
    let grown = (next_delay_bounds interval delay).2 in
    let more : suc fuel * first_delay interval
        ≡ first_delay interval + fuel * first_delay interval =
      omega arith in
    check_round-LoopEnd max_duration c q elapsed
      (health_loop (suc fuel) max_duration interval checks (suc round) q later
        (next_delay interval delay))
      (a round) w
      (inr (
        health_loop-LoopEnd_from fuel max_duration interval checks (suc round) q later
          (next_delay interval delay) a w (omega arith) (omega arith)))

-- The ready check loop of a `start` that has launched its command comes to an end of its own,
-- whatever the other goroutines do but to begin the launch of another start: with more rounds than
-- the time allowed has first delays it passes with the process starting, is interrupted, sees that
-- the command has exited, or runs out of time and has the command gone. It does not wait for ever.
pub health_loop-LoopEnd :
    (fuel max_duration interval : ℕ) (checks : ℕ → Check) (p : Process)
    → max_duration < fuel * first_delay interval
    → IsLaunched p
    → ((k : ℕ) → ArmsNothing (checks k))
    → LoopEnd (health_loop (suc fuel) max_duration interval checks 0 p 0 (first_delay interval))
health_loop-LoopEnd fuel max_duration interval checks p m v a =
    health_loop-LoopEnd_from fuel max_duration interval checks 0 p 0 (first_delay interval) a v
      (omega arith) (omega arith)
