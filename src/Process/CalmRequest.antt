-- ===== src/Process/CalmRequest.antt =====
-- proxy/process.go: requests and stops of a process on which no other goroutine acts meanwhile.
use llama_swap.Base.{
  ℕ, ◌+◌, ◌<◌, ◌≡◌, [], Option, none, some, true, false, ◌||◌, ◌==◌, arith, inl, inr, ◌⊎◌,
}
use llama_swap.Process.State.{
  ready, stopping, shutdown, Process, state_eq, is_valid_transition, swap_state,
}
use llama_swap.Process.Stop.{
  acquire, count_in, count_out, give_back, interfere, stop_immediately, stop,
}
use llama_swap.Process.Start.{Started, start}
use llama_swap.Process.Request.{
  Answer, no_reverse_proxy, unavailable, too_many_requests, start_failed, served, finish_request,
  RequestEnv, on_start, serve, proxy_request,
}
use llama_swap.Process.Calm.{
  Outcome, calm, Runs, IsReady, IsStopped, Keeps, Keeps-refl, stop_command-Runs,
  ended_from_stopping, ended-Keeps,
}
use llama_swap.Process.CalmStart.{StartEnd, Enough, Keeps-trans, start-StartEnd}

abbrev pub calm_request : Outcome → ℕ → RequestEnv
calm_request o now = record {
  has_reverse_proxy = true;
  start_env = calm o;
  counting = [];
  serving = [];
  now = now;
  leaving = [];
}

-- A process between two requests.
abbrev pub Settled : Process → Type 0
Settled p = IsStopped p ⊎ IsReady p

-- How a request that was admitted can end, begun with `p`.
abbrev pub RequestEnd : Process → Answer × Process → Type 0
RequestEnd p (served, q) = IsReady q × Keeps p q
RequestEnd p (start_failed e, q) = IsStopped q × Keeps p q
RequestEnd p (_, q) = ⊥

on_start-End :
    (o : Outcome) (now : ℕ) (p : Process) (r : Started)
    → StartEnd p r
    → RequestEnd p (on_start (calm_request o now) r)
unfolding interfere
on_start-End o now p (none, q) (a, k, z) = (a, k)
on_start-End o now p (some x, q) h = h

stopped_tests :
    (p : Process)
    → IsStopped p
    → (state_eq p.state ready ≡ false)
      × ((state_eq p.state shutdown || state_eq p.state stopping) ≡ false)
      × (is_valid_transition p.state stopping ≡ false)
unfolding state_eq is_valid_transition
stopped_tests p s = ground arith

pub ready_tests :
    (p : Process)
    → IsReady p
    → (state_eq p.state ready ≡ true)
      × ((state_eq p.state shutdown || state_eq p.state stopping) ≡ false)
      × (is_valid_transition p.state stopping ≡ true)
unfolding state_eq is_valid_transition
ready_tests p a = ground arith

serve-End :
    (o : Outcome) (now : ℕ) (p : Process)
    → Settled p
    → Enough o p
    → RequestEnd p (serve p (calm_request o now))
unfolding serve interfere
serve-End o now p (inl s) enough =
    rw ((stopped_tests p s).0)
      (on_start-End o now p (start p (calm o)) (start-StartEnd o p s enough))
serve-End o now p (inr a) enough = rw ((ready_tests p a).0) (a, Keeps-refl p)

-- The process with one more place taken.
taken : Process → Process
taken p = record p { slots = p.slots + 1; in_flight = p.in_flight + 1 }

with_token : Process → Process
with_token p = record p { slots = p.slots + 1 }

acquire-with_token : (p : Process) → p.slots < p.limit → acquire p ≡ some (with_token p)
unfolding acquire with_token
acquire-with_token p h = ground arith

taken-Settled : (p : Process) → Settled p → Settled (taken p)
unfolding taken
taken-Settled p (inl s) = inl (record { dead = s.dead; at_stopped = s.at_stopped })
taken-Settled p (inr a) = inr (record {
  runs = record { upstream = a.runs.upstream; open_chan = a.runs.open_chan; live = a.runs.live };
  at_ready = a.at_ready;
})

release-Keeps :
    (p q : Process) (now : ℕ) → Keeps (taken p) q → Keeps p (give_back (count_out q now))
unfolding taken count_out give_back
release-Keeps p q now k = ground arith

finish-End :
    (o : Outcome) (p : Process) (now : ℕ) (r : Answer × Process)
    → RequestEnd (taken p) r
    → RequestEnd p (finish_request (calm_request o now) r)
unfolding count_out give_back interfere
finish-End o p now (served, q) (a, k) = (
  record {
    runs = record { upstream = a.runs.upstream; open_chan = a.runs.open_chan; live = a.runs.live };
    at_ready = a.at_ready;
  },
  release-Keeps p q now k,
)
finish-End o p now (start_failed e, q) (s, k) =
    (record { dead = s.dead; at_stopped = s.at_stopped }, release-Keeps p q now k)
finish-End o p now (no_reverse_proxy, q) h = absurd h
finish-End o p now (unavailable s, q) h = absurd h
finish-End o p now (too_many_requests, q) h = absurd h

Enough-taken : (o : Outcome) (p : Process) → Enough o p → Enough o (taken p)
unfolding taken
Enough-taken o p e = e

Settled-open :
    (p : Process) → Settled p → (state_eq p.state shutdown || state_eq p.state stopping) ≡ false
Settled-open p (inl s) = (stopped_tests p s).1
Settled-open p (inr a) = (ready_tests p a).1

-- A request to a process that is stopped or ready and has a free place, when nobody disturbs it: it
-- is served by a ready process, or the process could not be started and is stopped. Either way the
-- place is given back: the tokens and the requests in flight are as many as before.
pub proxy_request-RequestEnd :
    (o : Outcome) (now : ℕ) (p : Process)
    → Settled p
    → p.slots < p.limit
    → Enough o p
    → RequestEnd p (proxy_request p (calm_request o now))
unfolding proxy_request interfere count_in with_token taken
proxy_request-RequestEnd o now p s free enough =
    rw (Settled-open p s, acquire-with_token p free)
      (finish-End o p now (serve (taken p) (calm_request o now))
        (serve-End o now (taken p) (taken-Settled p s) (Enough-taken o p enough)))

-- A stopped process that has kept its places.
abbrev pub IfStopped : Process → Option Process → Type 0
IfStopped p none = ⊥
IfStopped p (some q) = IsStopped q × Keeps p q

-- The process that `StopImmediately` hands to `stopCommand`.
leaving : Process → Process
leaving p = (swap_state p p.state stopping).0

leaving_lem :
    (p : Process)
    → IsReady p
    → (swap_state p p.state stopping ≡ (leaving p, stopping, none))
      × Runs (leaving p)
      × ((leaving p).state ≡ stopping)
      × Keeps p (leaving p)
unfolding leaving swap_state state_eq is_valid_transition
leaving_lem p a = ground arith

stop_immediately-IfStopped : (p : Process) → IsReady p → IfStopped p (stop_immediately p [] [])
unfolding stop_immediately
stop_immediately-IfStopped p a =
    let (e, r, s, k) = leaving_lem p a in
    rw ((ready_tests p a).2, e, stop_command-Runs (leaving p) r)
      (ended_from_stopping (leaving p) s, Keeps-trans k (ended-Keeps (leaving p)))

-- `Stop` of a process that is stopped, or is ready with no request in flight, ends with the process
-- stopped and its command gone, and the places of the requests as they were.
pub stop-IfStopped : (p : Process) → Settled p → p.in_flight ≡ 0 → IfStopped p (stop p [] [] [])
unfolding stop interfere
stop-IfStopped p (inl s) z = rw ((stopped_tests p s).2) (s, Keeps-refl p)
stop-IfStopped p (inr a) z =
    let quiet : (p.in_flight == 0) ≡ true = ground arith in
    rw ((ready_tests p a).2, quiet) (stop_immediately-IfStopped p a)

-- `StopImmediately`, likewise, whatever requests are in flight.
pub stop_now-IfStopped : (p : Process) → Settled p → IfStopped p (stop_immediately p [] [])
unfolding stop_immediately
stop_now-IfStopped p (inl s) = rw ((stopped_tests p s).2) (s, Keeps-refl p)
stop_now-IfStopped p (inr a) = stop_immediately-IfStopped p a
