-- ===== src/Event/Queue.antt =====
-- event/event.go: `consumer` and `group`. The goroutine of each consumer and the callers of the
-- group take turns: a step is what one of them does while it holds the lock, or one call of a
-- handler. A step that has to wait, or is not that goroutine's turn, leaves the group as it is.
use llama_swap.Base.{
  ℕ, zero, suc, List, [], ◌∷◌, ◌++◌, Bool, true, false, if◌then◌else◌, ltb, leb, ◌&&◌, not, length,
}

module _ {ℓ} (E : Type ℓ) where
  -- `listed` says that the consumer is in `s.subs`; `pending` is the buffer that `Listen` works off.
  -- `seen` are the events that the handler was called with, the latest last; `returned` says that
  -- `Listen` has returned.
  pub record Consumer : Type ℓ where
    pub queue : List E
    pub stop : Bool
    pub listed : Bool
    pub pending : List E
    pub seen : List E
    pub returned : Bool

  -- `consumers` are all that were ever added, in their order; `s.subs` are the listed ones, since
  -- `Add` appends and `Del` removes one.
  pub record Group : Type ℓ where
    pub consumers : List Consumer
    pub max_queue : ℕ
    pub max_len : ℕ

  unfoldable pub new_group : ℕ → Group
  new_group max_queue = record { consumers = []; max_queue = max_queue; max_len = 0 }

  abbrev pub new_consumer : Consumer
  new_consumer = record {
    queue = [];
    stop = false;
    listed = true;
    pending = [];
    seen = [];
    returned = false;
  }

  pub data Step : Type ℓ where
    broadcasts : E → Step
    adds : Step
    dels : ℕ → Step
    takes : ℕ → Step
    handles : ℕ → Step
    returns : ℕ → Step

module _ {ℓ} {E : Type ℓ} where
  -- The loops of `Broadcast` over the queues.
  unfoldable pub longest : List (Consumer E) → ℕ → ℕ
  longest [] n = n
  longest (c ∷ cs) n = longest cs (if c.listed && ltb n (length c.queue) then length c.queue else n)

  abbrev pub enqueue : E → Consumer E → Consumer E
  enqueue ev c = if c.listed then record c { queue = c.queue ++ (ev ∷ []) } else c

  unfoldable pub enqueue_all : E → List (Consumer E) → List (Consumer E)
  enqueue_all ev [] = []
  enqueue_all ev (c ∷ cs) = enqueue ev c ∷ enqueue_all ev cs

  -- Whether `Broadcast` waits for the consumers.
  unfoldable pub is_full : Group E → Bool
  is_full g = leb g.max_queue (longest g.consumers 0)

  unfoldable pub broadcast : Group E → E → Group E
  broadcast g ev =
      if is_full g
      then record g { max_len = longest g.consumers 0 }
      else (let after = enqueue_all ev g.consumers in
          record g { consumers = after; max_len = longest after 0 })

  unfoldable pub update : (Consumer E → Consumer E) → ℕ → List (Consumer E) → List (Consumer E)
  update f i [] = []
  update f zero (c ∷ cs) = f c ∷ cs
  update f (suc i) (c ∷ cs) = c ∷ update f i cs

  unfoldable pub add : Group E → Group E
  add g = record g { consumers = g.consumers ++ (new_consumer E ∷ []) }

  abbrev pub deleted : Consumer E → Consumer E
  deleted c = record c { stop = true; listed = false }

  unfoldable pub del : Group E → ℕ → Group E
  del g i = record g { consumers = update deleted i g.consumers }

  -- `Listen`, in its three parts: the swap of the buffers, a call of the handler, and the return.
  abbrev pub is_empty : List E → Bool
  is_empty [] = true
  is_empty (e ∷ es) = false

  unfoldable pub swap_buffers : Consumer E → Consumer E
  swap_buffers c =
      if is_empty c.pending && (not (is_empty c.queue) && not c.returned)
      then record c { queue = []; pending = c.queue }
      else c

  abbrev pub handle_first : Consumer E → List E → Consumer E
  handle_first c [] = c
  handle_first c (e ∷ es) = record c { pending = es; seen = c.seen ++ (e ∷ []) }

  unfoldable pub handle_next : Consumer E → Consumer E
  handle_next c = handle_first c c.pending

  unfoldable pub return_stopped : Consumer E → Consumer E
  return_stopped c =
      if (is_empty c.pending && is_empty c.queue) && c.stop then record c { returned = true } else c

  unfoldable pub step : Group E → Step E → Group E
  step g (broadcasts ev) = broadcast g ev
  step g adds = add g
  step g (dels i) = del g i
  step g (takes i) = record g { consumers = update swap_buffers i g.consumers }
  step g (handles i) = record g { consumers = update handle_next i g.consumers }
  step g (returns i) = record g { consumers = update return_stopped i g.consumers }

  unfoldable pub run : Group E → List (Step E) → Group E
  run g [] = g
  run g (s ∷ steps) = run (step g s) steps
