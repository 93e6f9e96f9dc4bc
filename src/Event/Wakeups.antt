-- ===== src/Event/Wakeups.antt =====
-- event/event.go: the condition variable of a group. The goroutine of a consumer and the callers of
-- `Broadcast` sleep in `Wait` until `cond.Broadcast` wakes them all. Each step is what one of them
-- does while it holds the lock, one call of a handler, or the wakeup after the handlers.
use llama_swap.Base.{
  ℕ, zero, suc, List, [], ◌∷◌, ◌++◌, Option, none, some, Bool, true, false, if◌then◌else◌, leb, map,
  get_elem?,
}
use llama_swap.Event.Queue.{
  Consumer, new_consumer, longest, enqueue, deleted, is_empty, handle_first,
}

-- Where the goroutine of a consumer stands: about to take the lock, in `Wait`, with a buffer that it
-- works off, or returned.
pub data Phase : Type 0 where
  listening asleep working returned : Phase

-- `cond.Broadcast`.
abbrev pub awake : Phase → Phase
awake asleep = listening
awake phase = phase

module _ {ℓ} (E : Type ℓ) where
  pub record Sub : Type ℓ where
    pub consumer : Consumer E
    pub phase : Phase

  -- A caller of `Broadcast` that has found the queues full, and whether it is in `Wait`.
  pub record Publisher : Type ℓ where
    pub event : E
    pub waits : Bool

  pub record Hub : Type ℓ where
    pub subs : List Sub
    pub max_queue : ℕ
    pub publishers : List Publisher

  abbrev pub new_sub : Sub
  new_sub = record { consumer = new_consumer E; phase = listening }

  unfoldable pub new_hub : ℕ → Hub
  new_hub max_queue = record { subs = []; max_queue = max_queue; publishers = [] }

  pub data Turn : Type ℓ where
    publishes : E → Turn
    retries : ℕ → Turn
    adds : Turn
    dels : ℕ → Turn
    listens : ℕ → Turn
    handles : ℕ → Turn
    notifies : ℕ → Turn

module _ {ℓ} {A : Type ℓ} where
  abbrev pub update_at : (A → A) → ℕ → List A → List A
  update_at f i [] = []
  update_at f zero (x ∷ xs) = f x ∷ xs
  update_at f (suc i) (x ∷ xs) = x ∷ update_at f i xs

  abbrev pub remove_at : ℕ → List A → List A
  remove_at i [] = []
  remove_at zero (x ∷ xs) = xs
  remove_at (suc i) (x ∷ xs) = x ∷ remove_at i xs

module _ {ℓ} {E : Type ℓ} where
  -- The length that `Broadcast` compares with the bound.
  abbrev pub max_len : List (Sub E) → ℕ
  max_len subs = longest (map (λ (s : Sub E). s.consumer) subs) 0

  abbrev pub is_full_hub : Hub E → Bool
  is_full_hub h = leb h.max_queue (max_len h.subs)

  abbrev pub wake_sub : Sub E → Sub E
  wake_sub s = record s { phase = awake s.phase }

  abbrev pub wake_publisher : Publisher E → Publisher E
  wake_publisher p = record p { waits = false }

  unfoldable pub wake_all : Hub E → Hub E
  wake_all h = record h { subs = map wake_sub h.subs; publishers = map wake_publisher h.publishers }

  -- `Broadcast`, from the loop that appends on.
  abbrev pub put_event : E → Sub E → Sub E
  put_event ev s = record s { consumer = enqueue ev s.consumer }

  unfoldable pub deliver : Hub E → E → Hub E
  unfolding wake_all
  deliver h ev = wake_all (record h { subs = map (put_event ev) h.subs })

  -- A call of `Broadcast`: it goes through or begins to wait.
  unfoldable pub publish : Hub E → E → Hub E
  unfolding deliver
  publish h ev =
      if is_full_hub h
      then record h { publishers = h.publishers ++ (record { event = ev; waits = true } ∷ []) }
      else deliver h ev

  -- A caller that was woken: it waits again or goes through.
  abbrev pub sleeps : Publisher E → Publisher E
  sleeps p = record p { waits = true }

  unfoldable pub retry_with : Hub E → ℕ → Option (Publisher E) → Hub E
  unfolding deliver
  retry_with h i none = h
  retry_with h i (some p) =
      if p.waits
      then h
      else if is_full_hub h
      then record h { publishers = update_at sleeps i h.publishers }
      else deliver (record h { publishers = remove_at i h.publishers }) p.event

  -- `Listen` with the lock: it returns if it is stopped and has nothing to do, waits if it has nothing
  -- to do, and else swaps the buffers.
  abbrev pub on_queue : Consumer E → List E → Sub E
  on_queue c [] =
      if c.stop
      then record { consumer = record c { returned = true }; phase = returned }
      else record { consumer = c; phase = asleep }
  on_queue c (e ∷ es) = record {
    consumer = record c { queue = []; pending = e ∷ es };
    phase = working;
  }

  abbrev pub listen_at : Sub E → Phase → Sub E
  listen_at s listening = on_queue s.consumer s.consumer.queue
  listen_at s _ = s

  abbrev pub listen : Sub E → Sub E
  listen s = listen_at s s.phase

  abbrev pub handle_at : Sub E → Phase → Sub E
  handle_at s working = record {
    consumer = handle_first s.consumer s.consumer.pending;
    phase = working;
  }
  handle_at s _ = s

  abbrev pub handle : Sub E → Sub E
  handle s = handle_at s s.phase

  -- The wakeup of the publishers once the buffer is worked off.
  abbrev pub rest_sub : Sub E → Sub E
  rest_sub s = record s { phase = listening }

  unfoldable pub notify_with : Hub E → ℕ → Phase → Bool → Hub E
  unfolding wake_all
  notify_with h i working true = wake_all (record h { subs = update_at rest_sub i h.subs })
  notify_with h i _ _ = h

  abbrev pub notify_at : Hub E → ℕ → Option (Sub E) → Hub E
  notify_at h i none = h
  notify_at h i (some s) = notify_with h i s.phase (is_empty s.consumer.pending)

  abbrev pub delete_sub : Sub E → Sub E
  delete_sub s = record s { consumer = deleted s.consumer }

  unfoldable pub turn : Hub E → Turn E → Hub E
  unfolding publish retry_with notify_with wake_all
  turn h (publishes ev) = publish h ev
  turn h (retries i) = retry_with h i (get_elem? h.publishers i)
  turn h adds = record h { subs = h.subs ++ (new_sub E ∷ []) }
  turn h (dels i) = wake_all (record h { subs = update_at delete_sub i h.subs })
  turn h (listens i) = record h { subs = update_at listen i h.subs }
  turn h (handles i) = record h { subs = update_at handle i h.subs }
  turn h (notifies i) = notify_at h i (get_elem? h.subs i)

  unfoldable pub turns : Hub E → List (Turn E) → Hub E
  turns h [] = h
  turns h (t ∷ ts) = turns (turn h t) ts
