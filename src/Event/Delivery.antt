-- ===== src/Event/Delivery.antt =====
-- event/event.go: the order in which a group delivers, and the length of its queues.
use llama_swap.Base.{
  ℕ, zero, suc, ◌≡◌, refl, sym, ◌∙◌, ap, ap₂, List, [], ◌∷◌, ◌++◌, map, append-nil, append_assoc,
  Bool, true, false, if◌then◌else◌, ◌&&◌, not, arith, Bool-cases, if_holds, inl, inr,
}
use llama_swap.Event.Queue.{
  is_empty, Consumer, Group, new_group, new_consumer, Step, broadcasts, adds, dels, takes, handles,
  returns, enqueue, enqueue_all, is_full, broadcast, update, add, deleted, del, swap_buffers,
  handle_first, handle_next, return_stopped, step, run,
}

module _ {ℓ} (E : Type ℓ) where
  -- What a subscriber is promised: while it is subscribed, it is sent each event in turn.
  pub record Subscriber : Type ℓ where
    pub subscribed : Bool
    pub sent : List E

module _ {ℓ} {E : Type ℓ} where
  abbrev pub send : E → Subscriber E → Subscriber E
  send ev s = if s.subscribed then record s { sent = s.sent ++ (ev ∷ []) } else s

  unfoldable pub send_all : E → List (Subscriber E) → List (Subscriber E)
  send_all ev [] = []
  send_all ev (s ∷ ss) = send ev s ∷ send_all ev ss

  abbrev pub unsubscribe : ℕ → List (Subscriber E) → List (Subscriber E)
  unsubscribe i [] = []
  unsubscribe zero (s ∷ ss) = record s { subscribed = false } ∷ ss
  unsubscribe (suc i) (s ∷ ss) = s ∷ unsubscribe i ss

  -- What the subscribers are due after some steps; a broadcast counts when the group takes it.
  unfoldable pub due : Group E → List (Step E) → List (Subscriber E) → List (Subscriber E)
  due g [] ss = ss
  due g (broadcasts ev ∷ steps) ss =
      due (step g (broadcasts ev)) steps (if is_full g then ss else send_all ev ss)
  due g (adds ∷ steps) ss =
      due (step g adds) steps (ss ++ (record { subscribed = true; sent = [] } ∷ []))
  due g (dels i ∷ steps) ss = due (step g (dels i)) steps (unsubscribe i ss)
  due g (takes i ∷ steps) ss = due (step g (takes i)) steps ss
  due g (handles i ∷ steps) ss = due (step g (handles i)) steps ss
  due g (returns i ∷ steps) ss = due (step g (returns i)) steps ss

  -- A consumer as a subscriber sees it: what was handled, and after it what still waits, in order.
  abbrev pub view : Consumer E → Subscriber E
  view c = record { subscribed = c.listed; sent = c.seen ++ (c.pending ++ c.queue) }

  abbrev subscriber : Bool → List E → Subscriber E
  subscriber b xs = record { subscribed = b; sent = xs }

  -- Views that differ in how the events they were sent are put together.
  same_view : (b : Bool) {xs ys : List E} → xs ≡ ys → subscriber b xs ≡ subscriber b ys
  same_view b e = ap (subscriber b) e

  view-enqueue : (ev : E) (c : Consumer E) → view (enqueue ev c) ≡ send ev (view c)
  view-enqueue ev c = elim (Bool-cases c.listed) [
    | inl h ↦ simp h (
        same_view true (
          ap (λ (zs : List E). c.seen ++ zs) (sym (append_assoc c.pending c.queue (ev ∷ [])))
          ∙ sym (append_assoc c.seen (c.pending ++ c.queue) (ev ∷ []))))
    | inr h ↦ simp h refl
  ]

  view-enqueue_all :
      (ev : E) (cs : List (Consumer E)) → map view (enqueue_all ev cs) ≡ send_all ev (map view cs)
  unfolding enqueue_all send_all
  view-enqueue_all ev [] = refl
  view-enqueue_all ev (c ∷ cs) = ap₂ ◌∷◌ (view-enqueue ev c) (view-enqueue_all ev cs)

  view-add :
      (cs : List (Consumer E))
      → map view (cs ++ (new_consumer E ∷ []))
        ≡ map view cs ++ (record { subscribed = true; sent = [] } ∷ [])
  view-add [] = refl
  view-add (c ∷ cs) = ap (◌∷◌ (view c)) (view-add cs)

  view-del :
      (i : ℕ) (cs : List (Consumer E))
      → map view (update deleted i cs) ≡ unsubscribe i (map view cs)
  unfolding update
  view-del i [] = refl
  view-del zero (c ∷ cs) = refl
  view-del (suc i) (c ∷ cs) = ap (◌∷◌ (view c)) (view-del i cs)

  -- A step of one consumer that its subscriber does not see.
  view-update :
      (f : Consumer E → Consumer E)
      → ((c : Consumer E) → view (f c) ≡ view c)
      → (i : ℕ) (cs : List (Consumer E)) → map view (update f i cs) ≡ map view cs
  unfolding update
  view-update f h i [] = refl
  view-update f h zero (c ∷ cs) = ap (λ (s : Subscriber E). s ∷ map view cs) (h c)
  view-update f h (suc i) (c ∷ cs) = ap (◌∷◌ (view c)) (view-update f h i cs)

  nil_of_empty : (xs : List E) → is_empty xs ≡ true → xs ≡ []
  nil_of_empty [] h = refl
  nil_of_empty (x ∷ xs) h = cc

  view-swap_buffers : (c : Consumer E) → view (swap_buffers c) ≡ view c
  unfolding swap_buffers
  view-swap_buffers c =
      elim (Bool-cases (is_empty c.pending && (not (is_empty c.queue) && not c.returned))) [
        | inl h ↦
            (let e = nil_of_empty c.pending (ground arith) in
              simp h (
                same_view c.listed (
                  ap (λ (zs : List E). c.seen ++ zs)
                    (append-nil c.queue ∙ ap (λ (zs : List E). zs ++ c.queue) (sym e)))))
        | inr h ↦ simp h refl
      ]

  view-handle_first :
      (c : Consumer E) (es : List E) → c.pending ≡ es → view (handle_first c es) ≡ view c
  view-handle_first c [] e = refl
  view-handle_first c (x ∷ es) e = same_view c.listed (
      append_assoc c.seen (x ∷ []) (es ++ c.queue)
      ∙ ap (λ (zs : List E). c.seen ++ (zs ++ c.queue)) (sym e))

  view-handle_next : (c : Consumer E) → view (handle_next c) ≡ view c
  unfolding handle_next
  view-handle_next c = view-handle_first c c.pending refl

  view-return_stopped : (c : Consumer E) → view (return_stopped c) ≡ view c
  unfolding return_stopped
  view-return_stopped c =
      if_holds (λ (d : Consumer E). view d ≡ view c)
        ((is_empty c.pending && is_empty c.queue) && c.stop) refl refl

  view-broadcast :
      (g : Group E) (ev : E)
      → map view (broadcast g ev).consumers
        ≡ (if is_full g then map view g.consumers else send_all ev (map view g.consumers))
  unfolding broadcast
  view-broadcast g ev = elim (Bool-cases (is_full g)) [
    | inl h ↦ rw h refl
    | inr h ↦ rw h (view-enqueue_all ev g.consumers)
  ]

  view-run :
      (g : Group E) (steps : List (Step E))
      → map view (run g steps).consumers ≡ due g steps (map view g.consumers)
  unfolding run step due add del
  view-run g [] = refl
  view-run g (broadcasts ev ∷ steps) =
      view-run (broadcast g ev) steps ∙ ap (due (broadcast g ev) steps) (view-broadcast g ev)
  view-run g (adds ∷ steps) = view-run (add g) steps ∙ ap (due (add g) steps) (view-add g.consumers)
  view-run g (dels i ∷ steps) =
      view-run (del g i) steps ∙ ap (due (del g i) steps) (view-del i g.consumers)
  view-run g (takes i ∷ steps) =
      view-run (step g (takes i)) steps
      ∙ ap (due (step g (takes i)) steps) (view-update swap_buffers view-swap_buffers i g.consumers)
  view-run g (handles i ∷ steps) =
      view-run (step g (handles i)) steps
      ∙ ap (due (step g (handles i)) steps) (view-update handle_next view-handle_next i g.consumers)
  view-run g (returns i ∷ steps) =
      view-run (step g (returns i)) steps
      ∙ ap (due (step g (returns i)) steps)
          (view-update return_stopped view-return_stopped i g.consumers)

  -- Each consumer of a group gets the events that the group took while it was subscribed, each
  -- once and in the order of the broadcasts, however the goroutines take turns: what its handler was
  -- called with, what it still works off and what waits in its queue are, one after the other, the
  -- events that it is due. A consumer that was removed still gets what was queued before.
  pub run-due :
      (max_queue : ℕ) (steps : List (Step E))
      → map view (run (new_group E max_queue) steps).consumers
        ≡ due (new_group E max_queue) steps []
  unfolding new_group
  run-due max_queue steps = view-run (new_group E max_queue) steps
