-- ===== src/Event/Heeded.antt =====
-- event/event.go: a caller of `Broadcast` that waits will be woken.
use llama_swap.Base.{
  ℕ, ◌<◌, ◌≡◌, ◌⊎◌, inl, inr, refl, sym, ap, ◌∙◌, List, [], ◌∷◌, ◌++◌, Option, none, some, Bool,
  true, false, if◌then◌else◌, leb, ltb, not, map, any, get_elem?, length, if_holds, arith,
  Bool-cases,
}
use llama_swap.Event.Queue.{longest, is_empty}
use llama_swap.Event.Wakeups.{
  Phase, listening, asleep, working, returned, Sub, Publisher, Hub, new_hub, Turn, publishes,
  retries, adds, dels, listens, handles, notifies, update_at, remove_at, is_full_hub, wake_all,
  put_event, deliver, publish, sleeps, retry_with, listen, handle, rest_sub, notify_with, notify_at,
  delete_sub, turn, turns,
}
use llama_swap.Event.Woken.{
  is_working, PhaseOk, SubOk, AllOk, any_works, consumers_of, Changes, put_event-SubOk,
  delete_sub-SubOk, rest_sub-SubOk, listen-SubOk, handle-SubOk, AllOk-map, AllOk-wake_update,
  AllOk-update, AllOk-add, none_waits, listen-Changes, handle-Changes, update_at-Changes,
  longest-add,
}

here_or_there :
    (here works rest has : Bool)
    → (here ≡ true → has ≡ true)
    → (works ≡ true → rest ≡ true)
    → (if here then true else works) ≡ true
    → (if has then true else rest) ≡ true
here_or_there true works rest has f g h = rw (f refl) refl
here_or_there false works rest has f g h = if_holds (λ (b : Bool). b ≡ true) has refl (g h)

module _ {ℓ} {E : Type ℓ} where
  abbrev pub any_waits : List (Publisher E) → Bool
  any_waits ps = any (λ (p : Publisher E). p.waits) ps

  -- The queues are full, or a consumer will wake everybody once it has worked off its buffer.
  abbrev WillWake : Hub E → Type 0
  WillWake h = (is_full_hub h ≡ true) ⊎ (any_works h.subs ≡ true)

  record Heeds (m : ℕ) (h : Hub E) : Type ℓ where
    subs_ok : AllOk h.subs
    bound : h.max_queue ≡ m
    heeded : any_waits h.publishers ≡ true → WillWake h

  -- After a wakeup nobody waits.
  woken : (m : ℕ) (h : Hub E) → AllOk (wake_all h).subs → h.max_queue ≡ m → Heeds m (wake_all h)
  unfolding wake_all
  woken m h a e = record {
    subs_ok = a;
    bound = e;
    heeded = λ w. absurd (true_ne (sym w ∙ none_waits h.publishers));
  }
    where
      true_ne : true ≡ false → ⊥
      true_ne h = cc

  deliver-Heeds :
      (m : ℕ) (h : Hub E) (ev : E) → AllOk h.subs → h.max_queue ≡ m → Heeds m (deliver h ev)
  unfolding deliver wake_all
  deliver-Heeds m h ev a e =
      woken m (record h { subs = map (put_event ev) h.subs })
        (AllOk-map (put_event ev) (put_event-SubOk ev) h.subs a) e

  -- A hub with more callers in `Wait`, because the queues are full.
  full-Heeds :
      (m : ℕ) (h : Hub E) (ps : List (Publisher E))
      → is_full_hub h ≡ true
      → Heeds m h
      → Heeds m (record h { publishers = ps })
  full-Heeds m h ps full i = record { subs_ok = i.subs_ok; bound = i.bound; heeded = λ w. inl full }

  publish-Heeds : (m : ℕ) (h : Hub E) (ev : E) → Heeds m h → Heeds m (publish h ev)
  unfolding publish
  publish-Heeds m h ev i = go (is_full_hub h) refl
    where
      go :
          (b : Bool)
          → is_full_hub h ≡ b
          → Heeds m (
              if b
              then record h {
                publishers = h.publishers ++ (record { event = ev; waits = true } ∷ []);
              }
              else deliver h ev)
      go true full = full-Heeds m h _ full i
      go false free = deliver-Heeds m h ev i.subs_ok i.bound

  retry_with-Heeds :
      (m : ℕ) (h : Hub E) (i : ℕ) (o : Option (Publisher E))
      → Heeds m h
      → Heeds m (retry_with h i o)
  unfolding retry_with
  retry_with-Heeds m h i none k = k
  retry_with-Heeds m h i (some p) k = if_holds (Heeds m) p.waits k (go (is_full_hub h) refl)
    where
      go :
          (b : Bool)
          → is_full_hub h ≡ b
          → Heeds m (
              if b
              then record h { publishers = update_at sleeps i h.publishers }
              else deliver (record h { publishers = remove_at i h.publishers }) p.event)
      go true full = full-Heeds m h _ full k
      go false free =
          deliver-Heeds m (record h { publishers = remove_at i h.publishers }) p.event k.subs_ok
            k.bound

  -- A step of one consumer's goroutine with the lock.
  update_at-Heeds :
      (m : ℕ) (h : Hub E) (f : Sub E → Sub E) (i : ℕ)
      → ((s : Sub E) → SubOk s → SubOk (f s))
      → ((s : Sub E) → Changes s (f s))
      → Heeds m h
      → Heeds m (record h { subs = update_at f i h.subs })
  update_at-Heeds m h f i ok changes k = record {
    subs_ok = AllOk-update f ok i h.subs k.subs_ok;
    bound = k.bound;
    heeded = λ w. go (k.heeded w) (update_at-Changes f changes i h.subs 0);
  }
    where
      go :
          WillWake h
          → ((longest (consumers_of (update_at f i h.subs)) 0 ≡ longest (consumers_of h.subs) 0)
              × (any_works (update_at f i h.subs) ≡ any_works h.subs))
            ⊎ (any_works (update_at f i h.subs) ≡ true)
          → WillWake (record h { subs = update_at f i h.subs })
      go x (inr w) = inr w
      go (inl full) (inl (q, w)) = inl (ap (leb h.max_queue) q ∙ full)
      go (inr works) (inl (q, w)) = inr (w ∙ works)

  notify_with-Heeds :
      (m : ℕ) (h : Hub E) (i : ℕ) (x : Phase) (b : Bool) → Heeds m h → Heeds m (notify_with h i x b)
  unfolding notify_with wake_all
  notify_with-Heeds m h i working true k =
      woken m (record h { subs = update_at rest_sub i h.subs })
        (AllOk-wake_update rest_sub rest_sub-SubOk i h.subs k.subs_ok) k.bound
  notify_with-Heeds m h i working false k = k
  notify_with-Heeds m h i listening b k = k
  notify_with-Heeds m h i asleep b k = k
  notify_with-Heeds m h i returned b k = k

  notify_at-Heeds :
      (m : ℕ) (h : Hub E) (i : ℕ) (o : Option (Sub E)) → Heeds m h → Heeds m (notify_at h i o)
  notify_at-Heeds m h i none k = k
  notify_at-Heeds m h i (some s) k = notify_with-Heeds m h i s.phase (is_empty s.consumer.pending) k

  turn-Heeds : (m : ℕ) (h : Hub E) (t : Turn E) → Heeds m h → Heeds m (turn h t)
  unfolding turn wake_all
  turn-Heeds m h (publishes ev) k = publish-Heeds m h ev k
  turn-Heeds m h (retries i) k = retry_with-Heeds m h i (get_elem? h.publishers i) k
  turn-Heeds m h adds k =
      let (q, w) = longest-add h.subs 0 in
      record {
        subs_ok = AllOk-add h.subs k.subs_ok;
        bound = k.bound;
        heeded = λ x. elim (k.heeded x) [
          | inl full ↦ inl (ap (leb h.max_queue) q ∙ full)
          | inr works ↦ inr (w ∙ works)
        ];
      }
  turn-Heeds m h (dels i) k =
      woken m (record h { subs = update_at delete_sub i h.subs })
        (AllOk-wake_update delete_sub delete_sub-SubOk i h.subs k.subs_ok) k.bound
  turn-Heeds m h (listens i) k = update_at-Heeds m h listen i listen-SubOk listen-Changes k
  turn-Heeds m h (handles i) k = update_at-Heeds m h handle i handle-SubOk handle-Changes k
  turn-Heeds m h (notifies i) k = notify_at-Heeds m h i (get_elem? h.subs i) k

  turns-Heeds : (m : ℕ) (h : Hub E) (ts : List (Turn E)) → Heeds m h → Heeds m (turns h ts)
  unfolding turns
  turns-Heeds m h [] k = k
  turns-Heeds m h (t ∷ ts) k = turns-Heeds m (turn h t) ts (turn-Heeds m h t k)

  -- The goroutine has a buffer to work off, or it is awake and has a queue to take.
  abbrev pub has_work : Sub E → Phase → Bool
  has_work s working = true
  has_work s listening = not (is_empty s.consumer.queue)
  has_work s _ = false

  abbrev pub any_has_work : List (Sub E) → Bool
  any_has_work subs = any (λ (s : Sub E). has_work s s.phase) subs

  works_has_work : (s : Sub E) (x : Phase) → is_working x ≡ true → has_work s x ≡ true
  works_has_work s working h = refl
  works_has_work s listening h = cc
  works_has_work s asleep h = cc
  works_has_work s returned h = cc

  any_works-has_work : (subs : List (Sub E)) → any_works subs ≡ true → any_has_work subs ≡ true
  any_works-has_work [] h = cc
  any_works-has_work (s ∷ subs) h =
      here_or_there (is_working s.phase) (any_works subs) (any_has_work subs) (has_work s s.phase)
        (works_has_work s s.phase) (any_works-has_work subs) h

  filled : (n : ℕ) (q : List E) → ltb n (length q) ≡ true → is_empty q ≡ false
  filled n [] h = absurd (ground arith)
  filled n (x ∷ q) h = refl

  -- A listed consumer with something in its queue has work.
  listed_has_work :
      (s : Sub E) (n : ℕ) (x : Phase)
      → s.consumer.listed ≡ not s.consumer.stop
      → PhaseOk x s.consumer
      → s.consumer.listed ≡ true
      → ltb n (length s.consumer.queue) ≡ true
      → has_work s x ≡ true
  listed_has_work s n working l h a b = refl
  listed_has_work s n listening l h a b = ap not (filled n s.consumer.queue b)
  listed_has_work s n asleep l (h, _) a b = cc (filled n s.consumer.queue b)
  listed_has_work s n returned l h a b = ground arith

  longest-has_work :
      (subs : List (Sub E)) (n : ℕ)
      → AllOk subs
      → n < longest (consumers_of subs) n
      → any_has_work subs ≡ true
  unfolding longest
  longest-has_work [] n a h = absurd (omega arith)
  longest-has_work (s ∷ subs) n ((l, k), a) h = elim (Bool-cases s.consumer.listed) [
    | inl listed ↦ elim (Bool-cases (ltb n (length s.consumer.queue))) [
      | inl more ↦
          ap (λ (b : Bool). if b then true else any_has_work subs)
            (listed_has_work s n s.phase l k listed more)
      | inr less ↦
          if_holds (λ (b : Bool). b ≡ true) (has_work s s.phase) refl
            (longest-has_work subs n a (rw (listed, less) at h))
    ]
    | inr gone ↦
        if_holds (λ (b : Bool). b ≡ true) (has_work s s.phase) refl
          (longest-has_work subs n a (rw gone at h))
  ]

  -- No wakeup is lost: wherever the goroutines of a group with a positive bound have got to, while a
  -- caller of `Broadcast` waits some consumer is not in `Wait`, and has a buffer to work off, at the
  -- end of which it wakes everybody, or a queue to take.
  pub turns-has_work :
      (max_queue : ℕ) (ts : List (Turn E))
      → 0 < max_queue
      → any_waits (turns (new_hub E max_queue) ts).publishers ≡ true
      → any_has_work (turns (new_hub E max_queue) ts).subs ≡ true
  unfolding new_hub
  turns-has_work max_queue ts pos w =
      let h = turns (new_hub E max_queue) ts in
      let k : Heeds max_queue h =
        turns-Heeds max_queue (new_hub E max_queue) ts
          (record { subs_ok = tt; bound = refl; heeded = λ x. cc }) in
      elim (k.heeded w) [
        | inr works ↦ any_works-has_work h.subs works
        | inl full ↦ longest-has_work h.subs 0 k.subs_ok (ground (arith, full, k.bound))
      ]
