-- ===== src/Process/Walks.antt =====
-- proxy/process.go: what `swapState` allows, over any number of calls.
use llama_swap.Base.{
  ℕ, suc, ◌≡◌, refl, List, [], ◌∷◌, none, some, true, false, arith, Bool-cases, ◌≢◌, ◌⊎◌, inl, inr,
}
use llama_swap.Process.State.{
  State, stopped, starting, ready, stopping, shutdown, state_eq, is_valid_transition, Process,
  Change, expected_state_mismatch, invalid_state_transition, swap_state,
}

-- The life of a process, as its transitions are documented.
infix 40 ◌⟶◌
pub data ◌⟶◌ : State → State → Type 0 where
  start : stopped ⟶ starting
  pass : starting ⟶ ready
  abort : starting ⟶ stopping
  fail : starting ⟶ stopped
  unload : ready ⟶ stopping
  exit : stopping ⟶ stopped
  close : stopping ⟶ shutdown

pub state_eq_iff : (s t : State) → (state_eq s t ≡ true → s ≡ t) × (s ≡ t → state_eq s t ≡ true)
unfolding state_eq
state_eq_iff s t = ground arith

edge : (s t : State) → is_valid_transition s t ≡ true → s ⟶ t
unfolding is_valid_transition
edge s t h = grind (arith, start, pass, abort, fail, unload, exit, close)

-- A list of events, the latest first, that leads from one state to another along edges.
pub data Walk : State → State → List Change → Type 0 where
  here : (s : State) → Walk s s []
  step :
      {s t u : State} {es : List Change}
      → Walk s t es
      → t ⟶ u
      → Walk s u (record { old_state = t; new_state = u } ∷ es)

-- A call of `swapState`.
pub record Swap : Type 0 where
  pub expected : State
  pub target : State

unfoldable pub swap_all : Process → List Swap → Process
swap_all p [] = p
swap_all p (c ∷ cs) = swap_all (swap_state p c.expected c.target).0 cs

-- `swapState` changes the state exactly if the process is in the expected state and the diagram has
-- the edge; it then reports the new state, and otherwise leaves the process as it was, reports the
-- state that it found and says which of the two failed.
pub swap_state_lem :
    (p : Process) (expected to : State)
    → ((p.state ≡ expected)
        × (is_valid_transition p.state to ≡ true)
        × ((swap_state p expected to).0.state ≡ to)
        × ((swap_state p expected to).1 ≡ to)
        × ((swap_state p expected to).2 ≡ none))
      ⊎ ((p.state ≡ expected)
          × (is_valid_transition p.state to ≡ false)
          × (swap_state p expected to ≡ (p, p.state, some invalid_state_transition)))
      ⊎ ((p.state ≢ expected)
          × (swap_state p expected to ≡ (p, p.state, some expected_state_mismatch)))
unfolding swap_state
swap_state_lem p expected to = elim (Bool-cases (state_eq p.state expected)) [
  | inl same ↦ elim (Bool-cases (is_valid_transition p.state to)) [
    | inl ok ↦
        inl
          ((state_eq_iff p.state expected).0 same, ok, rw (same, ok), rw (same, ok), rw (same, ok))
    | inr bad ↦ inr (inl ((state_eq_iff p.state expected).0 same, bad, rw (same, bad)))
  ]
  | inr other ↦ inr (inr ((λ e. cc ((state_eq_iff p.state expected).1 e)), rw other))
]

swap_state-Walk :
    (s : State) (p : Process) (expected to : State)
    → Walk s p.state p.emitted
    → Walk s (swap_state p expected to).0.state (swap_state p expected to).0.emitted
unfolding swap_state
swap_state-Walk s p expected to w = elim (Bool-cases (state_eq p.state expected)) [
  | inl same ↦ elim (Bool-cases (is_valid_transition p.state to)) [
    | inl ok ↦
        let e = (state_eq_iff p.state expected).0 same in
        rw (same, ok, ← e) (step w (edge p.state to ok))
    | inr bad ↦ rw (same, bad) w
  ]
  | inr other ↦ rw other w
]

-- However `swapState` is called, the events that a process emits lead along the diagram from the
-- state in which it began to the state in which it is.
pub swap_all-Walk :
    (s : State) (p : Process) (cs : List Swap)
    → Walk s p.state p.emitted
    → Walk s (swap_all p cs).state (swap_all p cs).emitted
unfolding swap_all
swap_all-Walk s p [] w = w
swap_all-Walk s p (c ∷ cs) w =
    swap_all-Walk s (swap_state p c.expected c.target).0 cs
      (swap_state-Walk s p c.expected c.target w)

-- The events that entered `starting`.
abbrev pub starts : List Change → ℕ
starts [] = 0
starts (c ∷ es) = let rest = starts es in elim c.new_state [ starting ↦ suc rest | _ ↦ rest ]

swap_state-starts :
    (p : Process) (expected to : State)
    → p.wait_starting ≡ starts p.emitted
    → (swap_state p expected to).0.wait_starting ≡ starts (swap_state p expected to).0.emitted
unfolding swap_state
swap_state-starts p expected to e = ground arith

-- The wait group is raised in the same step as the state becomes `starting`: as long as nobody calls
-- `Done`, it counts the events that entered `starting`.
pub swap_all-starts :
    (p : Process) (cs : List Swap)
    → p.wait_starting ≡ starts p.emitted
    → (swap_all p cs).wait_starting ≡ starts (swap_all p cs).emitted
unfolding swap_all
swap_all-starts p [] e = e
swap_all-starts p (c ∷ cs) e =
    swap_all-starts (swap_state p c.expected c.target).0 cs
      (swap_state-starts p c.expected c.target e)

swap_state-shutdown :
    (p : Process) (expected to : State) → p.state ≡ shutdown → (swap_state p expected to).0 ≡ p
unfolding swap_state is_valid_transition
swap_state-shutdown p expected to e = ground arith

-- No call of `swapState` changes a process that is shut down.
pub swap_all-shutdown : (p : Process) (cs : List Swap) → p.state ≡ shutdown → swap_all p cs ≡ p
unfolding swap_all
swap_all-shutdown p [] e = refl
swap_all-shutdown p (c ∷ cs) e =
    rw (swap_state-shutdown p c.expected c.target e) (swap_all-shutdown p cs e)
