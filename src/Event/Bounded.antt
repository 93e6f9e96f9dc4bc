-- ===== src/Event/Bounded.antt =====
-- event/event.go: how long the queues of a group can get.
use llama_swap.Base.{
  ℕ, zero, suc, ◌+◌, ◌≤◌, ◌<◌, ◌≡◌, refl, List, [], ◌∷◌, ◌++◌, Bool, true, if◌then◌else◌, ltb, leb,
  ◌&&◌, not, length, length-append, arith, Bool-cases, all, if_holds, subst, inl, inr,
}
use llama_swap.Event.Queue.{
  Consumer, Group, new_group, new_consumer, Step, broadcasts, adds, dels, takes, handles, returns,
  longest, enqueue, enqueue_all, is_full, broadcast, update, add, deleted, del, is_empty,
  swap_buffers, handle_first, handle_next, return_stopped, step, run,
}

module _ {ℓ} {E : Type ℓ} where
  abbrev pub fits : ℕ → Consumer E → Bool
  fits m c = leb (length c.queue) m

  longest_least : (cs : List (Consumer E)) (n : ℕ) → n ≤ longest cs n
  unfolding longest
  longest_least [] n = omega arith
  longest_least (c ∷ cs) n =
      let next = if c.listed && ltb n (length c.queue) then length c.queue else n in
      let more = longest_least cs next in ground (arith, more)

  longest_listed :
      (c : Consumer E) (cs : List (Consumer E)) (n : ℕ)
      → c.listed ≡ true
      → length c.queue ≤ longest (c ∷ cs) n
  unfolding longest
  longest_listed c cs n h =
      let next = if c.listed && ltb n (length c.queue) then length c.queue else n in
      let more = longest_least cs next in ground (arith, more)

  longest_tail :
      (c : Consumer E) (cs : List (Consumer E)) (n : ℕ)
      → (k : ℕ) × (longest (c ∷ cs) n ≡ longest cs k)
  unfolding longest
  longest_tail c cs n = (if c.listed && ltb n (length c.queue) then length c.queue else n, refl)

  enqueue-fits :
      (ev : E) (m : ℕ) (c : Consumer E) (cs : List (Consumer E)) (n : ℕ)
      → longest (c ∷ cs) n < m
      → fits m c ≡ true
      → fits m (enqueue ev c) ≡ true
  enqueue-fits ev m c cs n h f = elim (Bool-cases c.listed) [
    | inl l ↦
        (let short = longest_listed c cs n l in
          let e : length (c.queue ++ (ev ∷ [])) ≡ length c.queue + 1 =
            length-append c.queue (ev ∷ []) in
          simp l
            (let k : leb (length (c.queue ++ (ev ∷ []))) m ≡ true = ground (arith, short, e) in k))
    | inr l ↦ simp l f
  ]

  enqueue_all-fit :
      (ev : E) (m : ℕ) (cs : List (Consumer E)) (n : ℕ)
      → longest cs n < m
      → all (fits m) cs ≡ true
      → all (fits m) (enqueue_all ev cs) ≡ true
  unfolding enqueue_all
  enqueue_all-fit ev m [] n h a = refl
  enqueue_all-fit ev m (c ∷ cs) n h a =
      let (k, e) = longest_tail c cs n in
      let f : fits m c ≡ true = ground arith in
      let rest : all (fits m) cs ≡ true = ground arith in
      rw (enqueue-fits ev m c cs n h f) (enqueue_all-fit ev m cs k (rw e at h) rest)

  update-fit :
      (f : Consumer E → Consumer E) (m : ℕ)
      → ((c : Consumer E) → fits m c ≡ true → fits m (f c) ≡ true)
      → (i : ℕ) (cs : List (Consumer E)) → all (fits m) cs ≡ true
      → all (fits m) (update f i cs) ≡ true
  unfolding update
  update-fit f m h i [] a = refl
  update-fit f m h zero (c ∷ cs) a =
      let k : fits m c ≡ true = ground arith in
      let rest : all (fits m) cs ≡ true = ground arith in rw (h c k) rest
  update-fit f m h (suc i) (c ∷ cs) a =
      let k : fits m c ≡ true = ground arith in
      let rest : all (fits m) cs ≡ true = ground arith in rw k (update-fit f m h i cs rest)

  swap_buffers-fits : (m : ℕ) (c : Consumer E) → fits m c ≡ true → fits m (swap_buffers c) ≡ true
  unfolding swap_buffers
  swap_buffers-fits m c h =
      if_holds (λ (d : Consumer E). fits m d ≡ true)
        (is_empty c.pending && (not (is_empty c.queue) && not c.returned)) (ground arith) h

  handle_next-fits : (m : ℕ) (c : Consumer E) → fits m c ≡ true → fits m (handle_next c) ≡ true
  unfolding handle_next
  handle_next-fits m c h = go c.pending
    where
      go : (es : List E) → fits m (handle_first c es) ≡ true
      go [] = h
      go (e ∷ es) = h

  return_stopped-fits :
      (m : ℕ) (c : Consumer E) → fits m c ≡ true → fits m (return_stopped c) ≡ true
  unfolding return_stopped
  return_stopped-fits m c h =
      if_holds (λ (d : Consumer E). fits m d ≡ true)
        ((is_empty c.pending && is_empty c.queue) && c.stop) h h

  add-fit :
      (m : ℕ) (cs : List (Consumer E))
      → all (fits m) cs ≡ true
      → all (fits m) (cs ++ (new_consumer E ∷ [])) ≡ true
  add-fit m [] a = ground arith
  add-fit m (c ∷ cs) a =
      let k : fits m c ≡ true = ground arith in
      let rest : all (fits m) cs ≡ true = ground arith in rw k (add-fit m cs rest)

  -- A group whose queues fit.
  abbrev Fit : Group E → Type 0
  Fit g = all (fits g.max_queue) g.consumers ≡ true

  broadcast-Fit : (g : Group E) (ev : E) → Fit g → Fit (broadcast g ev)
  unfolding broadcast is_full
  broadcast-Fit g ev a = elim (Bool-cases (leb g.max_queue (longest g.consumers 0))) [
    | inl h ↦ rw h a
    | inr h ↦ rw h (enqueue_all-fit ev g.max_queue g.consumers 0 (ground arith) a)
  ]

  step-Fit :
      (g : Group E) (s : Step E) → Fit g → (Fit (step g s)) × ((step g s).max_queue ≡ g.max_queue)
  unfolding step add del broadcast
  step-Fit g (broadcasts ev) a = (
    broadcast-Fit g ev a,
    if_holds (λ (h : Group E). h.max_queue ≡ g.max_queue) (is_full g) refl refl,
  )
  step-Fit g adds a = (add-fit g.max_queue g.consumers a, refl)
  step-Fit g (dels i) a = (update-fit deleted g.max_queue (λ c h. h) i g.consumers a, refl)
  step-Fit g (takes i) a =
      (update-fit swap_buffers g.max_queue (swap_buffers-fits g.max_queue) i g.consumers a, refl)
  step-Fit g (handles i) a =
      (update-fit handle_next g.max_queue (handle_next-fits g.max_queue) i g.consumers a, refl)
  step-Fit g (returns i) a = (
    update-fit return_stopped g.max_queue (return_stopped-fits g.max_queue) i g.consumers a,
    refl,
  )

  run-Fit :
      (g : Group E) (steps : List (Step E))
      → Fit g
      → all (fits g.max_queue) (run g steps).consumers ≡ true
  unfolding run
  run-Fit g [] a = a
  run-Fit g (s ∷ steps) a =
      let (b, e) = step-Fit g s a in
      subst (λ (m : ℕ). all (fits m) (run (step g s) steps).consumers ≡ true) e
        (run-Fit (step g s) steps b)

  -- No queue of a group ever holds more events than its bound, however the goroutines take turns: a
  -- broadcast waits instead.
  pub run-fit :
      (max_queue : ℕ) (steps : List (Step E))
      → all (fits max_queue) (run (new_group E max_queue) steps).consumers ≡ true
  unfolding new_group
  run-fit max_queue steps = run-Fit (new_group E max_queue) steps refl
