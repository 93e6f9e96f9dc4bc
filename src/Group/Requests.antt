-- ===== src/Group/Requests.antt =====
-- proxy/processgroup.go: requests and stops in swap mode, when nobody else acts meanwhile.
use llama_swap.Base.{
  ℕ, suc, ◌*◌, ◌<◌, ◌≡◌, ◌≢◌, refl, subst, ◌∙◌, [], Option, none, some, true, false, if◌then◌else◌,
  arith, Bool-cases, inl, inr,
}
use llama_swap.Base.Text.{Text, text_eq, text_eq_iff, text_eq_refl}
use llama_swap.Base.Dict.{lookup, insert, lookup-insert}
use llama_swap.Process.State.{Process}
use llama_swap.Process.Stop.{stop}
use llama_swap.Process.Request.{
  Answer, RequestEnv, proxy_request, served, start_failed, no_reverse_proxy, unavailable,
  too_many_requests,
}
use llama_swap.Process.Health.{first_delay}
use llama_swap.Process.Calm.{Outcome, IsReady, IsStopped}
use llama_swap.Process.CalmStart.{Enough}
use llama_swap.Process.CalmRequest.{
  calm_request, RequestEnd, proxy_request-RequestEnd, IfStopped, stop-IfStopped,
}
use llama_swap.Group.State.{
  ProcessGroup, put_process, has_member, StopEnv, wait_for_inflight_request, GroupAnswer, answered,
  on_process, stop_previous, stop_found, with_process, after_previous, group_request,
}
use llama_swap.Group.Swapped.{
  Idle, Swapped, at_entry, absent_last-Swapped, stop_last-Swapped, use_last-Swapped,
}

-- Nobody acts while a process is stopped.
abbrev pub calm_stop : StopEnv
calm_stop = record { drained = []; rounds = []; final = [] }

-- The rounds of checks that cover the time allowed.
abbrev pub EnoughFor : ℕ → Outcome → Type 0
EnoughFor timeout o = (f : ℕ) × (o.fuel ≡ suc f) × (timeout * 1000 < f * first_delay o.interval)

abbrev pub IsSwapped : ℕ → ProcessGroup → Type 0
IsSwapped timeout g = Swapped timeout g.last_used_process g.processes

-- How a request to a member can end: served by its process, ready, or with its process stopped.
abbrev pub GroupEnd : ℕ → Text → GroupAnswer × ProcessGroup → Type 0
GroupEnd timeout model (answered served, h) =
    IsSwapped timeout h
    × (h.last_used_process ≡ model)
    × ((q : Process) × (lookup model h.processes ≡ some q) × IsReady q)
GroupEnd timeout model (answered (start_failed e), h) =
    IsSwapped timeout h
    × (h.last_used_process ≡ model)
    × ((q : Process) × (lookup model h.processes ≡ some q) × IsStopped q)
GroupEnd timeout model (_, h) = ⊥

Enough-at :
    (timeout : ℕ) (o : Outcome) (p : Process) → Idle timeout p → EnoughFor timeout o → Enough o p
Enough-at timeout o p i (f, e, h) = (f, e, rw i.same_timeout h)

lookup_self :
    (g : ProcessGroup) (model : Text) (q : Process)
    → lookup model (put_process g model q).processes ≡ some q
lookup_self g model q = rw (lookup-insert model model q g.processes, text_eq_refl model) refl

answer-End :
    (timeout : ℕ) (g : ProcessGroup) (p : Process) (r : Answer × Process)
    → g.last_used_process ≢ []
    → IsSwapped timeout g
    → lookup g.last_used_process g.processes ≡ some p
    → RequestEnd p r
    → GroupEnd timeout g.last_used_process (answered r.0, put_process g g.last_used_process r.1)
answer-End timeout g p (served, q) n w e (a, k) = (
  use_last-Swapped timeout g.last_used_process g.processes p q n w e (inr a) k,
  refl,
  (q, lookup_self g g.last_used_process q, a),
)
answer-End timeout g p (start_failed x, q) n w e (s, k) = (
  use_last-Swapped timeout g.last_used_process g.processes p q n w e (inl s) k,
  refl,
  (q, lookup_self g g.last_used_process q, s),
)
answer-End timeout g p (no_reverse_proxy, q) n w e h = absurd h
answer-End timeout g p (unavailable s, q) n w e h = absurd h
answer-End timeout g p (too_many_requests, q) n w e h = absurd h

on_last-End :
    (timeout : ℕ) (g : ProcessGroup) (o : Outcome) (now : ℕ) (p : Process)
    → g.last_used_process ≢ []
    → IsSwapped timeout g
    → lookup g.last_used_process g.processes ≡ some p
    → EnoughFor timeout o
    → GroupEnd timeout g.last_used_process
        (on_process g g.last_used_process (calm_request o now) (some p))
on_last-End timeout g o now p n w e enough =
    let i =
      at_entry (Idle timeout) g.last_used_process p g.processes e (w.idle g.last_used_process) in
    let free : p.slots < p.limit = rw i.no_slot i.room in
    answer-End timeout g p (proxy_request p (calm_request o now)) n w e
      (proxy_request-RequestEnd o now p i.settled free (Enough-at timeout o p i enough))

on_process-End :
    (timeout : ℕ) (g : ProcessGroup) (model : Text) (o : Outcome) (now : ℕ) (p : Process)
    → g.last_used_process ≡ model
    → model ≢ []
    → IsSwapped timeout g
    → lookup model g.processes ≡ some p
    → EnoughFor timeout o
    → GroupEnd timeout model (on_process g model (calm_request o now) (lookup model g.processes))
on_process-End timeout g model o now p l n w e enough = rw e (
    subst (λ (m : Text). GroupEnd timeout m (on_process g m (calm_request o now) (some p))) l
      (on_last-End timeout g o now p (rw l n) w (rw l e) enough))

-- The group before the request, the previous process stopped.
unfoldable pub Vacated : ℕ → ProcessGroup → Text → Option ProcessGroup → Type 0
Vacated timeout g model none = ⊥
Vacated timeout g model (some h) =
    IsSwapped timeout h
    × (h.last_used_process ≡ g.last_used_process)
    × (lookup model h.processes ≡ lookup model g.processes)

stop_found-Vacated :
    (timeout : ℕ) (g : ProcessGroup) (previous model : Text)
    → Swapped timeout previous g.processes
    → text_eq previous model ≡ false
    → (found : Option Process) → lookup previous g.processes ≡ found
    → Vacated timeout g model (stop_found g previous wait_for_inflight_request calm_stop found)
unfolding Vacated
stop_found-Vacated timeout g previous model w ne none e =
    (absent_last-Swapped timeout previous g.last_used_process g.processes w (inr e), refl, refl)
stop_found-Vacated timeout g previous model w ne (some p) e =
    let i = at_entry (Idle timeout) previous p g.processes e (w.idle previous) in
    go (stop p [] [] []) (stop-IfStopped p i.settled i.no_request)
  where
    go : (r : Option Process) → IfStopped p r → Vacated timeout g model (with_process g previous r)
    go none h = absurd h
    go (some q) (s, k) = (
      stop_last-Swapped timeout previous g.last_used_process g.processes p q w e s k,
      refl,
      (let l : lookup model (insert previous q g.processes) ≡ lookup model g.processes =
            rw (lookup-insert previous model q g.processes, ne) refl in
          l),
    )

pub stop_previous-Vacated :
    (timeout : ℕ) (g : ProcessGroup) (previous model : Text)
    → Swapped timeout previous g.processes
    → text_eq previous model ≡ false
    → Vacated timeout g model (stop_previous g previous calm_stop)
unfolding stop_previous
stop_previous-Vacated timeout g previous model w ne = elim (Bool-cases (text_eq previous [])) [
  | inl h ↦ rw h (
      unfold Vacated in
      (
        absent_last-Swapped timeout previous g.last_used_process g.processes w
            (inl ((text_eq_iff previous []).0 h)),
        refl,
        refl,
      ))
  | inr h ↦
      rw h (stop_found-Vacated timeout g previous model w ne (lookup previous g.processes) refl)
]

after_previous-End :
    (timeout : ℕ) (g : ProcessGroup) (o : Outcome) (now : ℕ) (p : Process) (r : Option ProcessGroup)
    → g.last_used_process ≢ []
    → lookup g.last_used_process g.processes ≡ some p
    → EnoughFor timeout o
    → Vacated timeout g g.last_used_process r
    → GroupEnd timeout g.last_used_process
        (after_previous g g.last_used_process (calm_request o now) r)
unfolding Vacated
after_previous-End timeout g o now p none n e enough v = absurd v
after_previous-End timeout g o now p (some h) n e enough (w, l, same) =
    on_process-End timeout h g.last_used_process o now p l n w (same ∙ e) enough

pub request-swap :
    (g : ProcessGroup) (model : Text) (stop_env : StopEnv) (env : RequestEnv)
    → has_member g model ≡ true
    → g.swap ≡ true
    → group_request g model stop_env env ≡ (
        let used = record g { last_used_process = model } in
        if text_eq g.last_used_process model
        then on_process g model env (lookup model g.processes)
        else after_previous used model env (stop_previous used g.last_used_process stop_env))
unfolding group_request
request-swap g model stop_env env m sw = ground arith

-- A request to a member of a group in swap mode, when nobody else acts on the group's processes:
-- afterwards at most the process of that member runs, every process is idle again, and the process
-- is ready if the request was served, and stopped if it could not be started. The rounds of the
-- health checks are given, and the invariant of the group is as the previous calls left it.
pub group_request-GroupEnd :
    (timeout : ℕ) (g : ProcessGroup) (model : Text) (o : Outcome) (now : ℕ) (p : Process)
    → g.swap ≡ true
    → IsSwapped timeout g
    → model ≢ []
    → has_member g model ≡ true
    → lookup model g.processes ≡ some p
    → EnoughFor timeout o
    → GroupEnd timeout model (group_request g model calm_stop (calm_request o now))
unfolding group_request
group_request-GroupEnd timeout g model o now p sw w n m e enough =
    let used : ProcessGroup = record g { last_used_process = model } in
    elim (Bool-cases (text_eq g.last_used_process model)) [
      | inl h ↦
          let l = (text_eq_iff g.last_used_process model).0 h in
          rw (request-swap g model calm_stop (calm_request o now) m sw, h)
            (on_process-End timeout g model o now p l n w e enough)
      | inr h ↦
          rw (request-swap g model calm_stop (calm_request o now) m sw, h)
            (after_previous-End timeout used o now p
              (stop_previous used g.last_used_process calm_stop) n e enough
              (stop_previous-Vacated timeout used g.last_used_process model w h))
    ]
