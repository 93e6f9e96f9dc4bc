-- ===== src/Event/Woken.antt =====
-- event/event.go: no wakeup of a group is lost.
use llama_swap.Base.{
  ℕ, zero, suc, ◌≡◌, ◌⊎◌, inl, inr, refl, sym, ap, ap₂, ◌∙◌, List, [], ◌∷◌, ◌++◌, Bool, true, false,
  if◌then◌else◌, ltb, not, ◌&&◌, map, any, length, if_holds, arith,
}
use llama_swap.Event.Queue.{Consumer, longest, deleted, is_empty, handle_first}
use llama_swap.Event.Wakeups.{
  Phase, listening, asleep, working, returned, awake, Sub, Publisher, new_sub, update_at, wake_sub,
  wake_publisher, put_event, on_queue, listen_at, listen, handle_at, handle, rest_sub, delete_sub,
}

abbrev pub is_working : Phase → Bool
is_working working = true
is_working _ = false

module _ {ℓ} {E : Type ℓ} where
  -- A consumer sleeps only with nothing to do, and has returned only if it was stopped.
  abbrev pub PhaseOk : Phase → Consumer E → Type 0
  PhaseOk asleep c = (is_empty c.queue ≡ true) × (c.stop ≡ false)
  PhaseOk returned c = c.stop ≡ true
  PhaseOk _ c = Unit

  abbrev pub SubOk : Sub E → Type 0
  SubOk s = (s.consumer.listed ≡ not s.consumer.stop) × PhaseOk s.phase s.consumer

  abbrev pub AllOk : List (Sub E) → Type 0
  AllOk [] = Unit
  AllOk (s ∷ subs) = SubOk s × AllOk subs

  awake-PhaseOk :
      (x : Phase) (c d : Consumer E)
      → PhaseOk x c
      → (c.stop ≡ true → d.stop ≡ true)
      → PhaseOk (awake x) d
  awake-PhaseOk listening c d h k = tt
  awake-PhaseOk asleep c d h k = tt
  awake-PhaseOk working c d h k = tt
  awake-PhaseOk returned c d h k = k h

  wake_sub-SubOk : (s : Sub E) → SubOk s → SubOk (wake_sub s)
  wake_sub-SubOk s (l, h) = (l, awake-PhaseOk s.phase s.consumer s.consumer h (λ e. e))

  pub put_event-SubOk : (ev : E) (s : Sub E) → SubOk s → SubOk (wake_sub (put_event ev s))
  put_event-SubOk ev s (l, h) =
      let c = s.consumer in
      if_holds (λ (d : Consumer E). SubOk (wake_sub (record { consumer = d; phase = s.phase })))
        c.listed (l, awake-PhaseOk s.phase c (record c { queue = c.queue ++ (ev ∷ []) }) h (λ e. e))
        (l, awake-PhaseOk s.phase c c h (λ e. e))

  pub delete_sub-SubOk : (s : Sub E) → SubOk s → SubOk (wake_sub (delete_sub s))
  delete_sub-SubOk s (l, h) =
      (refl, awake-PhaseOk s.phase s.consumer (deleted s.consumer) h (λ e. refl))

  pub rest_sub-SubOk : (s : Sub E) → SubOk s → SubOk (wake_sub (rest_sub s))
  rest_sub-SubOk s (l, h) = (l, tt)

  on_queue-SubOk :
      (c : Consumer E) (q : List E) → c.listed ≡ not c.stop → c.queue ≡ q → SubOk (on_queue c q)
  on_queue-SubOk c (x ∷ q) l e = (l, tt)
  on_queue-SubOk c [] l e = go c.stop refl
    where
      go :
          (b : Bool)
          → c.stop ≡ b
          → SubOk (
              if b
              then record { consumer = record c { returned = true }; phase = returned }
              else record { consumer = c; phase = asleep })
      go true s = (l, s)
      go false s = (l, (ap is_empty e, s))

  pub listen-SubOk : (s : Sub E) → SubOk s → SubOk (listen s)
  listen-SubOk s (l, h) = go s.phase refl
    where
      go : (x : Phase) → s.phase ≡ x → SubOk (listen_at s x)
      go listening e = on_queue-SubOk s.consumer s.consumer.queue l refl
      go asleep e = (l, h)
      go working e = (l, h)
      go returned e = (l, h)

  -- A call of the handler leaves the queue, the stop and the list alone.
  handle_first-same :
      (c : Consumer E) (es : List E)
      → ((handle_first c es).listed ≡ c.listed)
        × ((handle_first c es).stop ≡ c.stop)
        × ((handle_first c es).queue ≡ c.queue)
  handle_first-same c [] = (refl, refl, refl)
  handle_first-same c (e ∷ es) = (refl, refl, refl)

  pub handle-SubOk : (s : Sub E) → SubOk s → SubOk (handle s)
  handle-SubOk s (l, h) = go s.phase
    where
      go : (x : Phase) → SubOk (handle_at s x)
      go listening = (l, h)
      go asleep = (l, h)
      go working =
          let (listed, stop, queue) = handle_first-same s.consumer s.consumer.pending in
          (listed ∙ l ∙ ap not (sym stop), tt)
      go returned = (l, h)

  pub AllOk-map :
      (f : Sub E → Sub E)
      → ((s : Sub E) → SubOk s → SubOk (wake_sub (f s)))
      → (subs : List (Sub E)) → AllOk subs
      → AllOk (map wake_sub (map f subs))
  AllOk-map f k [] a = tt
  AllOk-map f k (s ∷ subs) (h, a) = (k s h, AllOk-map f k subs a)

  AllOk-wake : (subs : List (Sub E)) → AllOk subs → AllOk (map wake_sub subs)
  AllOk-wake [] a = tt
  AllOk-wake (s ∷ subs) (h, a) = (wake_sub-SubOk s h, AllOk-wake subs a)

  pub AllOk-wake_update :
      (f : Sub E → Sub E)
      → ((s : Sub E) → SubOk s → SubOk (wake_sub (f s)))
      → (i : ℕ) (subs : List (Sub E)) → AllOk subs
      → AllOk (map wake_sub (update_at f i subs))
  AllOk-wake_update f k i [] a = tt
  AllOk-wake_update f k zero (s ∷ subs) (h, a) = (k s h, AllOk-wake subs a)
  AllOk-wake_update f k (suc i) (s ∷ subs) (h, a) =
      (wake_sub-SubOk s h, AllOk-wake_update f k i subs a)

  pub AllOk-update :
      (f : Sub E → Sub E)
      → ((s : Sub E) → SubOk s → SubOk (f s))
      → (i : ℕ) (subs : List (Sub E)) → AllOk subs
      → AllOk (update_at f i subs)
  AllOk-update f k i [] a = tt
  AllOk-update f k zero (s ∷ subs) (h, a) = (k s h, a)
  AllOk-update f k (suc i) (s ∷ subs) (h, a) = (h, AllOk-update f k i subs a)

  pub AllOk-add : (subs : List (Sub E)) → AllOk subs → AllOk (subs ++ (new_sub E ∷ []))
  AllOk-add [] a = ((refl, tt), tt)
  AllOk-add (s ∷ subs) (h, a) = (h, AllOk-add subs a)

  pub none_waits :
      (ps : List (Publisher E)) → any (λ (p : Publisher E). p.waits) (map wake_publisher ps) ≡ false
  none_waits [] = refl
  none_waits (p ∷ ps) = none_waits ps

  -- What the step of a consumer's goroutine means to the publishers: the queue is as it was, and the
  -- goroutine works if it did, or it has a buffer to work off.
  abbrev pub Changes : Sub E → Sub E → Type 0
  Changes s t =
      ((length t.consumer.queue ≡ length s.consumer.queue)
        × (t.consumer.listed ≡ s.consumer.listed)
        × (is_working t.phase ≡ is_working s.phase))
      ⊎ (is_working t.phase ≡ true)

  on_queue-Changes :
      (s : Sub E) (q : List E)
      → is_working s.phase ≡ false
      → s.consumer.queue ≡ q
      → Changes s (on_queue s.consumer q)
  on_queue-Changes s (x ∷ q) w e = inr refl
  on_queue-Changes s [] w e = inl (
      if_holds
        (λ (t : Sub E).
          (length t.consumer.queue ≡ length s.consumer.queue)
          × (t.consumer.listed ≡ s.consumer.listed)
          × (is_working t.phase ≡ is_working s.phase))
        s.consumer.stop (refl, refl, sym w) (refl, refl, sym w))

  pub listen-Changes : (s : Sub E) → Changes s (listen s)
  listen-Changes s = go s.phase refl
    where
      go : (x : Phase) → s.phase ≡ x → Changes s (listen_at s x)
      go listening e = on_queue-Changes s s.consumer.queue (ap is_working e) refl
      go asleep e = inl (refl, refl, refl)
      go working e = inl (refl, refl, refl)
      go returned e = inl (refl, refl, refl)

  pub handle-Changes : (s : Sub E) → Changes s (handle s)
  handle-Changes s = go s.phase
    where
      go : (x : Phase) → Changes s (handle_at s x)
      go listening = inl (refl, refl, refl)
      go asleep = inl (refl, refl, refl)
      go working = inr refl
      go returned = inl (refl, refl, refl)

  abbrev pub any_works : List (Sub E) → Bool
  any_works subs = any (λ (s : Sub E). is_working s.phase) subs

  abbrev pub consumers_of : List (Sub E) → List (Consumer E)
  consumers_of subs = map (λ (s : Sub E). s.consumer) subs

  pub update_at-Changes :
      (f : Sub E → Sub E)
      → ((s : Sub E) → Changes s (f s))
      → (i : ℕ) (subs : List (Sub E)) (n : ℕ)
      → ((longest (consumers_of (update_at f i subs)) n ≡ longest (consumers_of subs) n)
          × (any_works (update_at f i subs) ≡ any_works subs))
        ⊎ (any_works (update_at f i subs) ≡ true)
  unfolding longest
  update_at-Changes f k i [] n = inl (refl, refl)
  update_at-Changes f k zero (s ∷ subs) n = elim (k s) [
    | inl (q, l, w) ↦ inl (
      ap₂ (λ (b : Bool) (m : ℕ). longest (consumers_of subs) (if b && ltb n m then m else n)) l q,
      ap (λ (b : Bool). if b then true else any_works subs) w,
    )
    | inr w ↦ inr (ap (λ (b : Bool). if b then true else any_works subs) w)
  ]
  update_at-Changes f k (suc i) (s ∷ subs) n =
      let c = s.consumer in
      elim (update_at-Changes f k i subs
        (if c.listed && ltb n (length c.queue) then length c.queue else n)) [
          | inl (q, w) ↦ inl (q, rw w refl)
          | inr w ↦ inr (rw w (if_holds (λ (b : Bool). b ≡ true) (is_working s.phase) refl refl))
        ]

  pub longest-add :
      (subs : List (Sub E)) (n : ℕ)
      → (longest (consumers_of (subs ++ (new_sub E ∷ []))) n ≡ longest (consumers_of subs) n)
        × (any_works (subs ++ (new_sub E ∷ [])) ≡ any_works subs)
  unfolding longest
  longest-add [] n = (ground arith, refl)
  longest-add (s ∷ subs) n =
      let c = s.consumer in
      let (q, w) =
        longest-add subs (if c.listed && ltb n (length c.queue) then length c.queue else n) in
      (q, rw w refl)
