-- ===== src/Tests/Processes.antt =====
-- proxy/process.go on concrete inputs.
use llama_swap.Base.{
  ℕ, suc, ◌<◌, ◌≡◌, inl, inr, refl, List, [], ◌∷◌, none, some, true, false, arith, ltb,
}
use llama_swap.Base.Text.{codes, text_eq, contains_text, has_prefix}
use llama_swap.Process.State.{
  state_eq, stopped, starting, ready, stopping, shutdown, Settings, Process, new_process,
  swap_state, is_valid_transition,
}
use llama_swap.Process.Walks.{Walk, here, Swap, swap_all, starts, swap_all-Walk}
use llama_swap.Process.Stop.{
  act, swaps, acquires, counts, uncounts, gives_back, exits, interfere, stop,
}
use llama_swap.Process.Health.{Check, passed, first_delay, next_delay, check_round, health_loop}
use llama_swap.Process.HealthResult.{IsLaunched, LoopEnd, health_loop-LoopEnd}
use llama_swap.Process.Start.{StartEnv, start, validate_command, contains_any}
use llama_swap.Process.Request.{unavailable, RequestEnv, proxy_request}
use llama_swap.Process.RequestSlots.{SamePlaces, AllowedRequest}
use llama_swap.Process.Slots.{Quiet, proxy_request-SamePlaces}
use llama_swap.Process.Started.{start_ok-ready}
use llama_swap.Process.Calm.{Outcome, calm, calm_check, IsReady, IsStopped}
use llama_swap.Process.CalmStart.{Enough, StartEnd, start-StartEnd}
use llama_swap.Process.CalmRequest.{
  calm_request, RequestEnd, proxy_request-RequestEnd, IfStopped, stop-IfStopped,
}
use llama_swap.Process.Final.{shutdown_final}

abbrev settings : Settings
settings = record {
  proxy = codes "http://127.0.0.1:5800";
  concurrency_limit = 2;
  unload_after = 0;
  check_endpoint = codes "/health";
}

abbrev fresh : Process
fresh = new_process 20 settings

fresh-IsStopped : IsStopped fresh
unfolding new_process
fresh-IsStopped = record { dead = refl; at_stopped = refl }

-- The health endpoint answers in the third round.
abbrev outcome : Outcome
outcome = record {
  command = some (codes "llama-server");
  launch_fails = false;
  interval = 0;
  passes = λ k. ltb 1 k;
  takes = λ k. 10;
  fuel = 102;
}

enough : Enough outcome fresh
unfolding new_process first_delay
enough = (101, refl, ground arith)

-- Two calls that change the state, and one that does not.
abbrev calls : List Swap
calls =
    record { expected = stopped; target = starting }
    ∷ record { expected = stopped; target = starting }
    ∷ record { expected = starting; target = ready }
    ∷ []

calls_end : (swap_all fresh calls).state ≡ ready
unfolding swap_all swap_state new_process state_eq is_valid_transition
calls_end = refl

fresh-Walk : Walk stopped fresh.state fresh.emitted
unfolding new_process
fresh-Walk = here stopped

swap_all-Walk_example : Walk stopped (swap_all fresh calls).state (swap_all fresh calls).emitted
swap_all-Walk_example = swap_all-Walk stopped fresh calls fresh-Walk

fresh_starts : fresh.wait_starting ≡ starts fresh.emitted
unfolding new_process
fresh_starts = refl

abbrev failing : ℕ → Check
failing k = calm_check (record outcome { passes = λ j. false }) k

abbrev begun : Process
begun = record fresh { state = starting; running = true; has_upstream = true }

begun-IsLaunched : IsLaunched begun
unfolding new_process
begun-IsLaunched = record { upstream = refl; open_chan = refl }

health_loop-LoopEnd_example : LoopEnd (health_loop (suc 3) 500 0 failing 0 begun 0 (first_delay 0))
health_loop-LoopEnd_example =
    health_loop-LoopEnd 3 500 0 failing begun (unfold first_delay in ground arith) begun-IsLaunched
      (λ k. record { others = refl; stopping = refl })

begun_passes : (health_loop 4 500 0 (calm_check outcome) 0 begun 0 200).0 ≡ passed
unfolding health_loop check_round state_eq interfere next_delay new_process
begun_passes = refl

start-StartEnd_example : StartEnd fresh (start fresh (calm outcome))
start-StartEnd_example = start-StartEnd outcome fresh fresh-IsStopped enough

-- Another goroutine has started the process, and its start succeeds.
abbrev waiting_start : StartEnv
waiting_start = record (calm outcome) { waiting = swaps starting ready ∷ [] }

waits_for_other : (start begun waiting_start).0 ≡ none
unfolding start text_eq new_process validate_command contains_any contains_text has_prefix
    swap_state state_eq is_valid_transition interfere act
waits_for_other = refl

start_ok-ready_example : (start begun waiting_start).1.state ≡ ready
start_ok-ready_example = start_ok-ready begun waiting_start waits_for_other

fresh-free : fresh.slots < fresh.limit
unfolding new_process
fresh-free = ground arith

proxy_request-RequestEnd_example : RequestEnd fresh (proxy_request fresh (calm_request outcome 7))
proxy_request-RequestEnd_example =
    proxy_request-RequestEnd outcome 7 fresh (inl fresh-IsStopped) fresh-free enough

-- Requests come and go while one is served.
abbrev busy : RequestEnv
busy = record (calm_request outcome 9) {
  serving = acquires ∷ counts ∷ acquires ∷ uncounts 8 ∷ gives_back ∷ [];
}

-- The process is stopped while it serves the request.
abbrev cut_off : RequestEnv
cut_off = record (calm_request outcome 9) { serving = swaps ready stopping ∷ exits ∷ [] }

cut_off-Quiet : AllowedRequest Quiet cut_off
cut_off-Quiet = record {
  start_env = record {
    waiting = refl;
    launching = refl;
    delaying = refl;
    checks = λ k. record { others = refl; stopping = refl };
    finishing = refl;
  };
  counting = refl;
  serving = refl;
  leaving = refl;
}

proxy_request-SamePlaces_example : SamePlaces fresh (proxy_request fresh cut_off).1
proxy_request-SamePlaces_example = proxy_request-SamePlaces fresh cut_off cut_off-Quiet

abbrev pub running_process : Process
running_process = record fresh { state = ready; running = true; has_upstream = true }

pub running_process-IsReady : IsReady running_process
unfolding new_process
running_process-IsReady = record {
  runs = record { upstream = refl; open_chan = refl; live = refl };
  at_ready = refl;
}

idle : running_process.in_flight ≡ 0
unfolding new_process
idle = refl

stop-IfStopped_example : IfStopped running_process (stop running_process [] [] [])
stop-IfStopped_example = stop-IfStopped running_process (inr running_process-IsReady) idle

abbrev closed : Process
closed = record fresh { state = shutdown }

closed_dead : closed.running ≡ false
unfolding new_process
closed_dead = refl

shutdown_final_example :
    (proxy_request (interfere closed (swaps stopped starting ∷ exits ∷ [])) busy
      ≡ (unavailable shutdown, interfere closed (swaps stopped starting ∷ exits ∷ [])))
    × ((interfere closed (swaps stopped starting ∷ exits ∷ [])).state ≡ shutdown)
shutdown_final_example =
    shutdown_final closed (swaps stopped starting ∷ exits ∷ []) busy refl closed_dead refl refl
