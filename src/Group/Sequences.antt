-- ===== src/Group/Sequences.antt =====
-- proxy/processgroup.go: what sequences of calls keep on a group in swap mode.
use llama_swap.Base.{
  ℕ, ◌≡◌, ◌≢◌, refl, sym, subst, ◌∙◌, List, [], ◌∷◌, Option, none, some, true, Bool-cases,
  Option-cases, inl, inr, if_holds,
}
use llama_swap.Base.Text.{Text, text_eq}
use llama_swap.Base.Dict.{lookup}
use llama_swap.Config.Types.{Config, GroupConfig}
use llama_swap.Process.State.{Process}
use llama_swap.Process.Calm.{Outcome}
use llama_swap.Process.Request.{
  RequestEnv, served, start_failed, no_reverse_proxy, unavailable, too_many_requests,
}
use llama_swap.Process.CalmRequest.{calm_request}
use llama_swap.Group.State.{
  ProcessGroup, put_process, has_member, wait_for_inflight_request, stop_by, GroupAnswer, answered,
  not_part_of_group, nil_process, never_returns, on_process, group_request, StopAnswer,
  process_not_found, never, done_with, with_process, stop_found, stop_previous, after_previous,
  stop_process, new_process_group, group_from,
}
use llama_swap.Group.Swapped.{running_last}
use llama_swap.Group.Created.{create_processes-Swapped, none-Swapped}
use llama_swap.Group.Requests.{
  calm_stop, EnoughFor, IsSwapped, GroupEnd, Vacated, stop_previous-Vacated, group_request-GroupEnd,
  request-swap,
}
use llama_swap.Group.Calls.{
  Call, requests, stops, call, call_all, Fine, AllFine, after_stop, Stops, stop_process-Stops,
}

on_process-swap :
    (g : ProcessGroup) (model : Text) (env : RequestEnv) (found : Option Process)
    → (on_process g model env found).1.swap ≡ g.swap
on_process-swap g model env none = refl
on_process-swap g model env (some p) = refl

stop_found-swap :
    (g : ProcessGroup) (name : Text) (found : Option Process) (model : Text) (env : RequestEnv)
    → (after_previous g model env
        (stop_found g name wait_for_inflight_request calm_stop found)).1.swap
      ≡ g.swap
stop_found-swap g name none model env = on_process-swap g model env (lookup model g.processes)
stop_found-swap g name (some p) model env = go (stop_by wait_for_inflight_request calm_stop p)
  where
    go : (r : Option Process) → (after_previous g model env (with_process g name r)).1.swap ≡ g.swap
    go none = refl
    go (some q) =
        on_process-swap (put_process g name q) model env
          (lookup model (put_process g name q).processes)

-- A request leaves the mode of the group as it is.
group_request-swap :
    (g : ProcessGroup) (model : Text) (env : RequestEnv)
    → (group_request g model calm_stop env).1.swap ≡ g.swap
unfolding group_request stop_previous
group_request-swap g model env =
    let used : ProcessGroup = record g { last_used_process = model } in
    if_holds (λ (r : GroupAnswer × ProcessGroup). r.1.swap ≡ g.swap) (has_member g model)
      (if_holds (λ (r : GroupAnswer × ProcessGroup). r.1.swap ≡ g.swap) g.swap
        (if_holds (λ (r : GroupAnswer × ProcessGroup). r.1.swap ≡ g.swap)
          (text_eq g.last_used_process model)
          (on_process-swap g model env (lookup model g.processes))
          (if_holds (λ (h : Option ProcessGroup). (after_previous used model env h).1.swap ≡ g.swap)
            (text_eq g.last_used_process [])
            (on_process-swap used model env (lookup model g.processes))
            (stop_found-swap used g.last_used_process (lookup g.last_used_process g.processes) model
              env)))
        (on_process-swap g model env (lookup model g.processes)))
      refl

GroupEnd-IsSwapped :
    (timeout : ℕ) (model : Text) (r : GroupAnswer × ProcessGroup)
    → GroupEnd timeout model r
    → IsSwapped timeout r.1
GroupEnd-IsSwapped timeout model (answered served, h) (w, _, _) = w
GroupEnd-IsSwapped timeout model (answered (start_failed e), h) (w, _, _) = w
GroupEnd-IsSwapped timeout model (answered no_reverse_proxy, h) x = absurd x
GroupEnd-IsSwapped timeout model (answered (unavailable s), h) x = absurd x
GroupEnd-IsSwapped timeout model (answered too_many_requests, h) x = absurd x
GroupEnd-IsSwapped timeout model (not_part_of_group, h) x = absurd x
GroupEnd-IsSwapped timeout model (nil_process, h) x = absurd x
GroupEnd-IsSwapped timeout model (never_returns, h) x = absurd x

after_previous-IsSwapped :
    (timeout : ℕ) (g : ProcessGroup) (model : Text) (env : RequestEnv) (r : Option ProcessGroup)
    → Vacated timeout g model r
    → lookup model g.processes ≡ none
    → IsSwapped timeout (after_previous g model env r).1
unfolding Vacated
after_previous-IsSwapped timeout g model env none v e = absurd v
after_previous-IsSwapped timeout g model env (some h) (w, l, same) e = rw (same ∙ e) w

-- A member that has no process: the call panics, and the invariant holds where it does.
request_nil :
    (timeout : ℕ) (g : ProcessGroup) (model : Text) (env : RequestEnv)
    → g.swap ≡ true
    → IsSwapped timeout g
    → has_member g model ≡ true
    → lookup model g.processes ≡ none
    → IsSwapped timeout (group_request g model calm_stop env).1
request_nil timeout g model env sw w m e =
    let used : ProcessGroup = record g { last_used_process = model } in
    elim (Bool-cases (text_eq g.last_used_process model)) [
      | inl h ↦ rw (request-swap g model calm_stop env m sw, h, e) w
      | inr h ↦
          rw (request-swap g model calm_stop env m sw, h)
            (after_previous-IsSwapped timeout used model env
              (stop_previous used g.last_used_process calm_stop)
              (stop_previous-Vacated timeout used g.last_used_process model w h) e)
    ]

request-IsSwapped :
    (timeout : ℕ) (g : ProcessGroup) (model : Text) (o : Outcome) (now : ℕ)
    → g.swap ≡ true
    → IsSwapped timeout g
    → model ≢ []
    → EnoughFor timeout o
    → IsSwapped timeout (group_request g model calm_stop (calm_request o now)).1
request-IsSwapped timeout g model o now sw w n enough = elim (Bool-cases (has_member g model)) [
  | inr m ↦ unfold group_request in rw m w
  | inl m ↦ elim (Option-cases (lookup model g.processes)) [
    | inl e ↦ request_nil timeout g model (calm_request o now) sw w m e
    | inr (p, e) ↦
        GroupEnd-IsSwapped timeout model (group_request g model calm_stop (calm_request o now))
          (group_request-GroupEnd timeout g model o now p sw w n m e enough)
  ]
]

after_stop-kept :
    (timeout : ℕ) (g : ProcessGroup) (a : StopAnswer)
    → IsSwapped timeout g × (g.swap ≡ true)
    → Stops timeout a
    → IsSwapped timeout (after_stop g a) × ((after_stop g a).swap ≡ true)
unfolding Stops
after_stop-kept timeout g process_not_found w s = w
after_stop-kept timeout g never w s = absurd s
after_stop-kept timeout g (done_with h) w s = s

call-kept :
    (timeout : ℕ) (g : ProcessGroup) (c : Call)
    → IsSwapped timeout g × (g.swap ≡ true)
    → Fine timeout c
    → IsSwapped timeout (call g c) × ((call g c).swap ≡ true)
unfolding call
call-kept timeout g (requests model o now) (w, sw) (n, enough) = (
  request-IsSwapped timeout g model o now sw w n enough,
  group_request-swap g model (calm_request o now) ∙ sw,
)
call-kept timeout g (stops model strategy) (w, sw) f =
    after_stop-kept timeout g (stop_process g model strategy calm_stop) (w, sw)
      (stop_process-Stops timeout g model strategy w sw)

call_all-kept :
    (timeout : ℕ) (g : ProcessGroup) (calls : List Call)
    → IsSwapped timeout g × (g.swap ≡ true)
    → AllFine timeout calls
    → IsSwapped timeout (call_all g calls)
unfolding call_all
call_all-kept timeout g [] (w, sw) f = w
call_all-kept timeout g (c ∷ calls) k (f, fs) =
    call_all-kept timeout (call g c) calls (call-kept timeout g c k f) fs

none-some : {g : ProcessGroup} → none ≡ some g → ⊥
none-some e = cc

some-injective : {g h : ProcessGroup} → some g ≡ some h → g ≡ h
some-injective e = cc

-- What `NewProcessGroup` makes of a configured group in swap mode.
new-kept :
    (id : Text) (c : Config) (g : ProcessGroup)
    → new_process_group id c ≡ some g
    → IsSwapped c.health_check_timeout g
unfolding new_process_group
new-kept id c g e = go (lookup id c.groups) e
  where
    go : (o : Option GroupConfig) → group_from id c o ≡ some g → IsSwapped c.health_check_timeout g
    go none e = absurd (none-some e)
    go (some x) e =
        subst (λ (r : ProcessGroup). IsSwapped c.health_check_timeout r) (some-injective e)
          (create_processes-Swapped c x.members [] (none-Swapped c.health_check_timeout))

-- In a group in swap mode at most one process runs: after any sequence of requests and stops that the
-- new group takes one after the other, two members whose commands run are the same. Other
-- goroutines do not act on the processes; each request names a model and comes with the rounds that
-- cover the time allowed for the health checks, and may end in any way the operating system decides.
pub call_all-one_runs :
    (c : Config) (id : Text) (g : ProcessGroup) (calls : List Call) (a b : Text) (p q : Process)
    → new_process_group id c ≡ some g
    → g.swap ≡ true
    → AllFine c.health_check_timeout calls
    → lookup a (call_all g calls).processes ≡ some p
    → lookup b (call_all g calls).processes ≡ some q
    → p.running ≡ true
    → q.running ≡ true
    → a ≡ b
call_all-one_runs c id g calls a b p q e sw f at_a at_b runs_a runs_b =
    let t = c.health_check_timeout in
    let h = call_all g calls in
    let w = call_all-kept t g calls (new-kept id c g e, sw) f in
    running_last t h.last_used_process a h.processes p w at_a runs_a
    ∙ sym (running_last t h.last_used_process b h.processes q w at_b runs_b)
