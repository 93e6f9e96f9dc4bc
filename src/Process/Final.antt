-- ===== src/Process/Final.antt =====
-- proxy/process.go: `Shutdown`, and what comes after it.
use llama_swap.Base.{◌≡◌, refl, List, [], ◌∷◌, Option, none, some, Bool, true, false, all, arith}
use llama_swap.Process.State.{
  stopped, shutdown, Process, state_eq, is_valid_transition, swap_state, force_state,
}
use llama_swap.Process.Stop.{
  Act, swaps, acquires, counts, uncounts, gives_back, exits, arms, launches, fails_to_launch,
  shuts_down, act, acquire, count_in, count_out, give_back, interfere, shut_down, wait_for_cmd,
}
use llama_swap.Process.Request.{unavailable, RequestEnv, proxy_request}
use llama_swap.Process.Calm.{IsReady, stop_command-Runs}
use llama_swap.Process.CalmRequest.{ready_tests}

-- A process that is shut down, without a command.
abbrev pub IfShutDown : Option Process → Type 0
IfShutDown none = ⊥
IfShutDown (some q) = (q.state ≡ shutdown) × (q.running ≡ false)

-- `Shutdown` of a ready process that nobody else acts on leaves it shut down and its command gone.
pub shut_down-IfShutDown : (p : Process) → IsReady p → IfShutDown (shut_down p [])
unfolding shut_down
shut_down-IfShutDown p a =
    rw ((ready_tests p a).2, stop_command-Runs p a.runs)
      (unfold wait_for_cmd force_state in (refl, refl))

-- The acts of a start that is past its test of the state: it launches the command, or fails to and
-- forces the state.
abbrev pub starts_nothing : Act → Bool
starts_nothing arms = false
starts_nothing launches = false
starts_nothing fails_to_launch = false
starts_nothing _ = true

act-shutdown :
    (p : Process) (a : Act)
    → starts_nothing a ≡ true
    → p.state ≡ shutdown
    → p.running ≡ false
    → ((act p a).state ≡ shutdown) × ((act p a).running ≡ false)
unfolding act swap_state acquire count_in count_out give_back state_eq is_valid_transition
    force_state
act-shutdown p (swaps s t) q e d = ground arith
act-shutdown p acquires q e d = ground arith
act-shutdown p counts q e d = ground arith
act-shutdown p (uncounts now) q e d = ground arith
act-shutdown p gives_back q e d = ground arith
act-shutdown p exits q e d = ground arith
act-shutdown p arms q e d = cc
act-shutdown p launches q e d = cc
act-shutdown p fails_to_launch q e d = cc
act-shutdown p shuts_down q e d = ground arith

interfere-shutdown :
    (p : Process) (others : List Act)
    → all starts_nothing others ≡ true
    → p.state ≡ shutdown
    → p.running ≡ false
    → (interfere p others).state ≡ shutdown
unfolding interfere
interfere-shutdown p [] q e d = e
interfere-shutdown p (a ∷ others) q e d =
    let (first, rest) : (starts_nothing a ≡ true) × (all starts_nothing others ≡ true) =
      ground arith in
    let (e', d') = act-shutdown p a first e d in interfere-shutdown (act p a) others rest e' d'

-- A process that was shut down, its command gone, and no `start` of it being past its test of the
-- state: whatever the other goroutines do after that, new requests, starts, stops and shutdowns
-- among it, a request is refused with the process as they left it, still shut down.
pub shutdown_final :
    (p : Process) (others : List Act) (env : RequestEnv)
    → p.state ≡ shutdown
    → p.running ≡ false
    → all starts_nothing others ≡ true
    → env.has_reverse_proxy ≡ true
    → (proxy_request (interfere p others) env ≡ (unavailable shutdown, interfere p others))
      × ((interfere p others).state ≡ shutdown)
unfolding proxy_request state_eq
shutdown_final p others env e d q h =
    let s = interfere-shutdown p others q e d in (ground (arith, s), s)

-- A shutdown in the time between a start's test of the state and its launch is undone if the launch
-- fails: the process is stopped, and may be started again.
pub shutdown_undone :
    (p : Process) → (interfere (force_state p shutdown) (fails_to_launch ∷ [])).state ≡ stopped
unfolding interfere act swap_state force_state state_eq
shutdown_undone p = refl
