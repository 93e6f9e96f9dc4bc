-- ===== src/Manager/Exclusive.antt =====
-- proxy/proxymanager.go: what `swapProcessGroup` and the stops of the manager promise.
use llama_swap.Base.{
  not, ◌&&◌, ◌||◌, ◌≡◌, refl, sym, subst, [], ◌∷◌, Option, none, some, Bool, true, false,
  if◌then◌else◌, Bool-cases, inl, inr, ◌⊎◌,
}
use llama_swap.Base.Text.{text_eq, Text}
use llama_swap.Base.Dict.{Dict}
use llama_swap.Process.State.{Process}
use llama_swap.Process.Calm.{IsStopped, Keeps}
use llama_swap.Process.CalmRequest.{IfStopped, Settled, stop-IfStopped, stop_now-IfStopped}
use llama_swap.Group.State.{
  ProcessGroup, StopStrategy, immediately, wait_for_inflight_request, stop_by, each_process, both,
  with_processes, stop_processes,
}
use llama_swap.Group.Requests.{calm_stop}
use llama_swap.Manager.Groups.{
  find_group_by_model_name, makes_room, with_rest, stop_others, Swap, swapped, swapped_to, swap_to,
  swap_process_group,
}

-- Predicates of every process of a group, and of every group.
abbrev pub AllProcesses : (Process → Type 0) → Dict Process → Type 0
AllProcesses P [] = Unit
AllProcesses P ((name, p) ∷ ps) = P p × AllProcesses P ps

abbrev pub Quiet : Process → Type 0
Quiet p = Settled p × (p.in_flight ≡ 0)

-- What a stop makes of a map of processes: the same names, every process stopped, its requests'
-- places as they were.
abbrev pub AllStopped : Dict Process → Dict Process → Type 0
AllStopped [] [] = Unit
AllStopped ((n, p) ∷ ps) ((m, q) ∷ qs) = (n ≡ m) × IsStopped q × Keeps p q × AllStopped ps qs
AllStopped _ _ = ⊥

abbrev pub IfAllStopped : Dict Process → Option (Dict Process) → Type 0
IfAllStopped ps none = ⊥
IfAllStopped ps (some qs) = AllStopped ps qs

both-AllStopped :
    (n : Text) (p : Process) (ps : Dict Process) (r : Option Process) (rest : Option (Dict Process))
    → IfStopped p r
    → IfAllStopped ps rest
    → IfAllStopped ((n, p) ∷ ps) (both n r rest)
both-AllStopped n p ps none rest a b = absurd a
both-AllStopped n p ps (some q) none a b = absurd b
both-AllStopped n p ps (some q) (some qs) (s, k) b = (refl, s, k, b)

stop_by-IfStopped : (s : StopStrategy) (p : Process) → Quiet p → IfStopped p (stop_by s calm_stop p)
stop_by-IfStopped immediately p (a, z) = stop_now-IfStopped p a
stop_by-IfStopped wait_for_inflight_request p (a, z) = stop-IfStopped p a z

each_process-AllStopped :
    (s : StopStrategy) (ps : Dict Process)
    → AllProcesses Quiet ps
    → IfAllStopped ps (each_process (λ n p. stop_by s calm_stop p) ps)
unfolding each_process
each_process-AllStopped s [] a = tt
each_process-AllStopped s ((n, p) ∷ ps) (a, as') =
    both-AllStopped n p ps (stop_by s calm_stop p) (each_process (λ n p. stop_by s calm_stop p) ps)
      (stop_by-IfStopped s p a) (each_process-AllStopped s ps as')

-- The same group, all its processes stopped.
abbrev pub StoppedGroup : ProcessGroup → ProcessGroup → Type 0
StoppedGroup g h =
    (h.id ≡ g.id) × (h.persistent ≡ g.persistent) × AllStopped g.processes h.processes

abbrev pub IfStoppedGroup : ProcessGroup → Option ProcessGroup → Type 0
IfStoppedGroup g none = ⊥
IfStoppedGroup g (some h) = StoppedGroup g h

stop_processes-StoppedGroup :
    (s : StopStrategy) (g : ProcessGroup)
    → AllProcesses Quiet g.processes
    → IfStoppedGroup g (stop_processes g s (λ name. calm_stop))
unfolding stop_processes
stop_processes-StoppedGroup s g a =
    go (each_process (λ n p. stop_by s calm_stop p) g.processes)
      (each_process-AllStopped s g.processes a)
  where
    go :
        (r : Option (Dict Process))
        → IfAllStopped g.processes r
        → IfStoppedGroup g (with_processes g r)
    go none h = absurd h
    go (some qs) h = (refl, refl, h)

abbrev pub AllGroups : (ProcessGroup → Type 0) → Dict ProcessGroup → Type 0
AllGroups P [] = Unit
AllGroups P ((id, g) ∷ groups) = P g × AllGroups P groups

abbrev pub QuietGroup : ProcessGroup → Type 0
QuietGroup g = AllProcesses Quiet g.processes

-- What becomes of each group: the target and the persistent ones stay as they are, the others are
-- stopped.
abbrev pub is_spared : ProcessGroup → Text → ProcessGroup → Bool
is_spared target id g = text_eq id target.id || g.persistent

abbrev pub Room : Bool → ProcessGroup → ProcessGroup → Type 0
Room true g h = h ≡ g
Room false g h = StoppedGroup g h

abbrev pub MadeRoom : ProcessGroup → Dict ProcessGroup → Dict ProcessGroup → Type 0
MadeRoom target [] [] = Unit
MadeRoom target ((i, g) ∷ gs) ((j, h) ∷ hs) =
    (i ≡ j) × Room (is_spared target i g) g h × MadeRoom target gs hs
MadeRoom target _ _ = ⊥

abbrev pub IfMadeRoom : ProcessGroup → Dict ProcessGroup → Option (Dict ProcessGroup) → Type 0
IfMadeRoom target gs none = ⊥
IfMadeRoom target gs (some hs) = MadeRoom target gs hs

abbrev IfRoom : Bool → ProcessGroup → Option ProcessGroup → Type 0
IfRoom b g none = ⊥
IfRoom b g (some h) = Room b g h

with_rest-MadeRoom :
    (target : ProcessGroup) (i : Text) (g : ProcessGroup) (gs : Dict ProcessGroup)
    (r : Option ProcessGroup) (rest : Option (Dict ProcessGroup))
    → IfRoom (is_spared target i g) g r
    → IfMadeRoom target gs rest
    → IfMadeRoom target ((i, g) ∷ gs) (with_rest i r rest)
with_rest-MadeRoom target i g gs none rest a b = absurd a
with_rest-MadeRoom target i g gs (some h) none a b = absurd b
with_rest-MadeRoom target i g gs (some h) (some hs) a b = (refl, a, b)

stopped_room : (g : ProcessGroup) (r : Option ProcessGroup) → IfStoppedGroup g r → IfRoom false g r
stopped_room g none h = h
stopped_room g (some x) h = h

one-Room :
    (same persistent : Bool) (g : ProcessGroup)
    → QuietGroup g
    → IfRoom (same || persistent) g (
        if not same && not persistent
        then stop_processes g wait_for_inflight_request (λ name. calm_stop)
        else some g)
one-Room true persistent g q = refl
one-Room false true g q = refl
one-Room false false g q =
    stopped_room g (stop_processes g wait_for_inflight_request (λ name. calm_stop))
      (stop_processes-StoppedGroup wait_for_inflight_request g q)

stop_others-MadeRoom :
    (target : ProcessGroup) (gs : Dict ProcessGroup)
    → AllGroups QuietGroup gs
    → IfMadeRoom target gs (stop_others target (λ id name. calm_stop) gs)
unfolding stop_others
stop_others-MadeRoom target [] a = tt
stop_others-MadeRoom target ((i, g) ∷ gs) (a, rest) =
    with_rest-MadeRoom target i g gs
      (if makes_room target i g
        then stop_processes g wait_for_inflight_request (λ name. calm_stop)
        else some g)
      (stop_others target (λ id name. calm_stop) gs)
      (one-Room (text_eq i target.id) g.persistent g a) (stop_others-MadeRoom target gs rest)

-- What a swap does to the groups, by whether the target is exclusive.
abbrev pub AfterSwap : Bool → ProcessGroup → Dict ProcessGroup → Dict ProcessGroup → Type 0
AfterSwap true target gs hs = MadeRoom target gs hs
AfterSwap false target gs hs = hs ≡ gs

abbrev pub SwapEnd : ProcessGroup → Dict ProcessGroup → Swap → Type 0
SwapEnd target gs (swapped id hs) = (id ≡ target.id) × AfterSwap target.exclusive target gs hs
SwapEnd target gs _ = ⊥

exclusive-SwapEnd :
    (target : ProcessGroup) (gs : Dict ProcessGroup) (r : Option (Dict ProcessGroup))
    → target.exclusive ≡ true
    → IfMadeRoom target gs r
    → SwapEnd target gs (swapped_to target.id r)
exclusive-SwapEnd target gs none h m = absurd m
exclusive-SwapEnd target gs (some hs) h m =
    (refl, subst (λ (b : Bool). AfterSwap b target gs hs) (sym h) m)

-- The swap for a model whose group is `target`, when no request is in flight and nobody else acts:
-- it returns that group. If the group is exclusive, every process of each other group that is not
-- persistent is stopped, and the group itself and the persistent ones are untouched; otherwise
-- all groups are.
pub swap_process_group-SwapEnd :
    (gs : Dict ProcessGroup) (model : Text) (target : ProcessGroup)
    → find_group_by_model_name gs model ≡ some target
    → AllGroups QuietGroup gs
    → SwapEnd target gs (swap_process_group gs (λ id name. calm_stop) model)
unfolding swap_process_group
swap_process_group-SwapEnd gs model target e a = rw e (go (Bool-cases target.exclusive))
  where
    go :
        (target.exclusive ≡ true) ⊎ (target.exclusive ≡ false)
        → SwapEnd target gs (swap_to gs (λ id name. calm_stop) (some target))
    go (inl h) = simp h (
        exclusive-SwapEnd target gs (stop_others target (λ id name. calm_stop) gs) h
          (stop_others-MadeRoom target gs a))
    go (inr h) = simp h (refl, refl)
