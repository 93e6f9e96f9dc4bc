-- ===== src/Group/Calls.antt =====
-- proxy/processgroup.go: sequences of calls on a group in swap mode.
use llama_swap.Base.{
  ℕ, ◌≡◌, ◌≢◌, refl, List, [], ◌∷◌, Option, none, some, true, if◌then◌else◌, Bool-cases, inl, inr,
}
use llama_swap.Base.Text.{Text, text_eq, text_eq_iff}
use llama_swap.Base.Dict.{lookup, insert}
use llama_swap.Process.State.{Process}
use llama_swap.Process.Calm.{Outcome, IsStopped, Keeps}
use llama_swap.Process.CalmRequest.{calm_request, IfStopped, stop-IfStopped, stop_now-IfStopped}
use llama_swap.Group.State.{
  ProcessGroup, StopStrategy, immediately, wait_for_inflight_request, stop_by, group_request,
  StopAnswer, process_not_found, never, done_with, stop_answer, with_process, stop_process,
  on_found,
}
use llama_swap.Group.Swapped.{Idle, Swapped, at_entry, stop_any-Swapped, stop_last-Swapped}
use llama_swap.Group.Requests.{calm_stop, EnoughFor, IsSwapped}

-- A call on a group that nobody else acts on meanwhile.
pub data Call : Type 0 where
  requests : Text → Outcome → ℕ → Call
  stops : Text → StopStrategy → Call

abbrev pub after_stop : ProcessGroup → StopAnswer → ProcessGroup
after_stop g process_not_found = g
after_stop g never = g
after_stop g (done_with h) = h

unfoldable pub call : ProcessGroup → Call → ProcessGroup
call g (requests model o now) = (group_request g model calm_stop (calm_request o now)).1
call g (stops model strategy) = after_stop g (stop_process g model strategy calm_stop)

unfoldable pub call_all : ProcessGroup → List Call → ProcessGroup
call_all g [] = g
call_all g (c ∷ calls) = call_all (call g c) calls

-- A call names a model, and a request comes with enough rounds of health checks.
abbrev pub Fine : ℕ → Call → Type 0
Fine timeout (requests model o now) = (model ≢ []) × EnoughFor timeout o
Fine timeout (stops model strategy) = Unit

abbrev pub AllFine : ℕ → List Call → Type 0
AllFine timeout [] = Unit
AllFine timeout (c ∷ calls) = Fine timeout c × AllFine timeout calls

stop_by-IfStopped :
    (timeout : ℕ) (s : StopStrategy) (p : Process)
    → Idle timeout p
    → IfStopped p (stop_by s calm_stop p)
stop_by-IfStopped timeout immediately p i = stop_now-IfStopped p i.settled
stop_by-IfStopped timeout wait_for_inflight_request p i = stop-IfStopped p i.settled i.no_request

unfoldable pub Stops : ℕ → StopAnswer → Type 0
Stops timeout process_not_found = Unit
Stops timeout never = ⊥
Stops timeout (done_with h) = IsSwapped timeout h × (h.swap ≡ true)

forget_used :
    (timeout : ℕ) (g : ProcessGroup) (model : Text) (p q : Process)
    → IsSwapped timeout g
    → lookup model g.processes ≡ some p
    → IsStopped q
    → Keeps p q
    → Swapped timeout
        (if text_eq g.last_used_process model then [] else g.last_used_process)
        (insert model q g.processes)
forget_used timeout g model p q w e s k = elim (Bool-cases (text_eq g.last_used_process model)) [
  | inl h ↦
      let l = (text_eq_iff g.last_used_process model).0 h in
      rw h
        (rw l at (stop_last-Swapped timeout g.last_used_process [] g.processes p q w (rw l e) s k))
  | inr h ↦ rw h (stop_any-Swapped timeout g.last_used_process model g.processes p q w e s k)
]

on_found-Stops :
    (timeout : ℕ) (g : ProcessGroup) (model : Text) (s : StopStrategy)
    → IsSwapped timeout g
    → g.swap ≡ true
    → (found : Option Process) → lookup model g.processes ≡ found
    → Stops timeout (on_found g model s calm_stop found)
unfolding Stops
on_found-Stops timeout g model s w sw none e = tt
on_found-Stops timeout g model s w sw (some p) e =
    go (stop_by s calm_stop p)
      (stop_by-IfStopped timeout s p (at_entry (Idle timeout) model p g.processes e (w.idle model)))
  where
    used : ProcessGroup
    used = record g {
      last_used_process = if text_eq g.last_used_process model then [] else g.last_used_process;
    }

    go :
        (r : Option Process)
        → IfStopped p r
        → Stops timeout (stop_answer (with_process used model r))
    go none h = absurd h
    go (some q) (t, k) = (forget_used timeout g model p q w e t k, sw)

-- A stop of an idle process of the group returns, and the process is stopped.
pub stop_process-Stops :
    (timeout : ℕ) (g : ProcessGroup) (model : Text) (s : StopStrategy)
    → IsSwapped timeout g
    → g.swap ≡ true
    → Stops timeout (stop_process g model s calm_stop)
unfolding stop_process
stop_process-Stops timeout g model s w sw =
    on_found-Stops timeout g model s w sw (lookup model g.processes) refl
