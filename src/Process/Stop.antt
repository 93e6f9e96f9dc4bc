-- ===== src/Process/Stop.antt =====
-- proxy/process.go: `waitForCmd`, `stopCommand`, `Stop`, `StopImmediately`, `Shutdown`.
use llama_swap.Base.{
  ℕ, ◌+◌, ◌-◌, ltb, List, [], ◌∷◌, Option, none, some, false, if◌then◌else◌, ◌==◌, Bool, true, ◌&&◌,
}
use llama_swap.Process.State.{
  State, stopped, starting, stopping, shutdown, is_valid_transition, Process, SwapError,
  expected_state_mismatch, invalid_state_transition, swap_state, force_state,
}

-- `waitForCmd` once `cmd.Wait` has returned: the state, then the channel.
abbrev pub forced_stop : Process × State × Option SwapError → Process
forced_stop (q, cur, none) = q
forced_stop (q, cur, some e) = force_state q stopped

abbrev pub after_exit : State → Process → Process
after_exit stopping p = forced_stop (swap_state p stopping stopped)
after_exit _ p = force_state p stopped

unfoldable pub wait_for_cmd : Process → Process
wait_for_cmd p = let q = after_exit p.state p in record q { chan_open = false; running = false }

-- `ProxyRequest`, how a request takes its place: a token of the semaphore, if one is free, and then
-- a place in the wait group and the counter.
unfoldable pub acquire : Process → Option Process
acquire p = if ltb p.slots p.limit then some (record p { slots = p.slots + 1 }) else none

unfoldable pub count_in : Process → Process
count_in p = record p { in_flight = p.in_flight + 1 }

-- The deferred functions of `ProxyRequest`, the last one first.
unfoldable pub count_out : Process → ℕ → Process
count_out p now = record p { last_request_handled = now; in_flight = p.in_flight - 1 }

unfoldable pub give_back : Process → Process
give_back p = record p { slots = p.slots - 1 }

-- `start`, before the launch: `cancelUpstream`, a new `cmdWaitChan`, and the count of failed starts.
abbrev pub arm : Process → Process
arm p = record p {
  has_upstream = true;
  chan_open = true;
  failed_start_count = p.failed_start_count + 1;
}

-- What the other goroutines of a process do while a method waits: they call `swapState`, a request
-- takes or gives back its token or is counted in or out, the command exits, a `start` prepares the
-- launch, launches the command or fails to, or a `Shutdown` ends.
pub data Act : Type 0 where
  swaps : State → State → Act
  acquires : Act
  counts : Act
  uncounts : ℕ → Act
  gives_back : Act
  exits : Act
  arms : Act
  launches : Act
  fails_to_launch : Act
  shuts_down : Act

abbrev pub acquired : Process → Option Process → Process
acquired p none = p
acquired p (some q) = q

abbrev pub exited : Process → Process
exited p = if p.running then wait_for_cmd p else p

-- Whether a request stands between its token and the counter. Nobody else counts in or gives a
-- token back.
abbrev pub between : Process → Bool
between p = ltb p.in_flight p.slots

unfoldable pub act : Process → Act → Process
unfolding acquire count_in count_out give_back wait_for_cmd
act p (swaps expected to) = (swap_state p expected to).0
act p acquires = acquired p (acquire p)
act p counts = if between p then count_in p else p
act p (uncounts now) = count_out p now
act p gives_back = if between p then give_back p else p
act p exits = exited p
act p arms = arm p
act p launches = if p.has_upstream && p.chan_open then record p { running = true } else p
act p fails_to_launch = forced_stop (swap_state p starting stopped)
act p shuts_down = force_state p shutdown

unfoldable pub interfere : Process → List Act → Process
interfere p [] = p
interfere p (a ∷ others) = interfere (act p a) others

-- `stopCommand`. `cancelUpstream` makes the command exit, and `<-cmdWaitChan` waits until
-- `waitForCmd` has closed the channel, which it does if it runs. `none`: nobody will close it.
unfoldable pub await_exit : Process → Option Process
await_exit p = if p.chan_open then (if p.running then some (wait_for_cmd p) else none) else some p

unfoldable pub stop_command : Process → List Act → Option Process
stop_command p others =
    let q = record p { ttl_running = false } in
    if q.has_upstream then await_exit (interfere q others) else some q

-- The rounds of `StopImmediately`. In each one the others act between the reading of the state and
-- `swapState`; a round is repeated only if they changed the state. The last list is what they do
-- while `stopCommand` waits. Without a list for a further round the others have come to rest.
abbrev pub on_swap : Process × State × Option SwapError → Option Process → List Act → Option Process
on_swap (q, _, none) again final = stop_command q final
on_swap (q, _, some expected_state_mismatch) again final = again
on_swap (q, _, some invalid_state_transition) again final = some q

unfoldable pub stop_immediately : Process → List (List Act) → List Act → Option Process
stop_immediately p [] final =
    if is_valid_transition p.state stopping
    then on_swap (swap_state p p.state stopping) (some p) final
    else some p
stop_immediately p (others ∷ rounds) final =
    let again = stop_immediately (interfere p others) rounds final in
    if is_valid_transition p.state stopping
    then on_swap (swap_state (interfere p others) p.state stopping) again final
    else some p

-- `Stop`. It waits until no request is in flight; `drained` is what the others do until it goes on.
-- `none`: a request is still in flight, and it waits on.
unfoldable pub stop : Process → List Act → List (List Act) → List Act → Option Process
stop p drained rounds final =
    if is_valid_transition p.state stopping
    then (let q = interfere p drained in
        if q.in_flight == 0 then stop_immediately q rounds final else none)
    else some p

-- `Shutdown`.
abbrev pub forced_shutdown : Option Process → Option Process
forced_shutdown none = none
forced_shutdown (some q) = some (force_state q shutdown)

unfoldable pub shut_down : Process → List Act → Option Process
shut_down p others =
    if is_valid_transition p.state stopping then forced_shutdown (stop_command p others) else some p
