-- ===== src/Process/Request.antt =====
-- proxy/process.go: `ProxyRequest`, and the rounds of the TTL goroutine that `start` leaves running.
use llama_swap.Base.{ℕ, ◌-◌, ◌*◌, List, Option, none, some, Bool, if◌then◌else◌, ltb, ◌==◌, ◌||◌}
use llama_swap.Process.State.{State, stopping, shutdown, ready, state_eq, Process}
use llama_swap.Process.Stop.{Act, interfere, acquire, count_in, count_out, give_back}
use llama_swap.Process.Start.{StartEnv, StartError, Started, start}

pub data Answer : Type 0 where
  no_reverse_proxy : Answer
  unavailable : State → Answer
  too_many_requests : Answer
  start_failed : StartError → Answer
  served : Answer

-- The status that `http.Error` sends; a request that is served gets the upstream's answer.
unfoldable pub status : Answer → Option ℕ
status no_reverse_proxy = some 500
status (unavailable s) = some 503
status too_many_requests = some 429
status (start_failed e) = some 502
status served = none

pub record RequestEnv : Type 0 where
  -- `NewProcess` made a reverse proxy, as the URL could be parsed
  pub has_reverse_proxy : Bool
  pub start_env : StartEnv
  -- between the token and the counter
  pub counting : List Act
  -- while the upstream serves the request
  pub serving : List Act
  -- when the request is over
  pub now : ℕ
  -- until the token is given back
  pub leaving : List Act

abbrev pub on_start : RequestEnv → Started → Answer × Process
on_start env (none, q) = (served, interfere q env.serving)
on_start env (some e, q) = (start_failed e, q)

-- The part of a request that stands between taking the place and giving it back.
unfoldable pub serve : Process → RequestEnv → Answer × Process
serve p env =
    if state_eq p.state ready
    then (served, interfere p env.serving)
    else on_start env (start p env.start_env)

abbrev pub finish_request : RequestEnv → Answer × Process → Answer × Process
finish_request env (a, p) = (a, give_back (interfere (count_out p env.now) env.leaving))

abbrev pub on_acquire : Process → RequestEnv → Option Process → Answer × Process
on_acquire p env none = (too_many_requests, p)
on_acquire p env (some q) = finish_request env (serve (count_in (interfere q env.counting)) env)

unfoldable pub proxy_request : Process → RequestEnv → Answer × Process
proxy_request p env =
    if env.has_reverse_proxy
    then (if state_eq p.state shutdown || state_eq p.state stopping
        then (unavailable p.state, p)
        else on_acquire p env (acquire p))
    else (no_reverse_proxy, p)

-- One tick of the TTL goroutine, in milliseconds: whether it goes on, and whether it unloads.
pub data Tick : Type 0 where
  gone goes_on unloads : Tick

unfoldable pub ttl_tick : Process → ℕ → Tick
ttl_tick p now =
    if state_eq p.state ready
    then (if p.in_flight == 0
        then (if ltb (p.settings.unload_after * 1000) (now - p.last_request_handled)
            then unloads
            else goes_on)
        else goes_on)
    else gone
