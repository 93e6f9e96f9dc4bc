-- ===== src/Sync/Outcome.antt =====
-- proxy/config_runtime_sync.go: what a group holds once a new configuration is applied to it.
use llama_swap.Base.{
  ◌≡◌, refl, ap, subst, ◌∙◌, inl, inr, List, [], ◌∷◌, Option, none, some, Bool, true, false,
  if◌then◌else◌, ◌&&◌, ◌||◌, not, arith, Bool-cases, Option-cases,
}
use llama_swap.Base.Text.{Text, text_eq, text_eq_iff, contains}
use llama_swap.Base.Dict.{Dict, lookup}
use llama_swap.Config.Types.{GroupConfig, Config}
use llama_swap.Process.State.{
  Process, State, stopped, starting, ready, stopping, shutdown, state_eq, new_process,
}
use llama_swap.Process.Stop.{Act, shut_down}
use llama_swap.Group.State.{ProcessGroup, settings_of}
use llama_swap.Sync.Runtime.{
  Entry, keyed, entry_for, sync_members, next_members, is_removed, put_first, shut_down_removed,
  process_or, place_entry, place_entries, last_used_in, sync_existing_group_runtime, settle,
  sync_group,
}
use llama_swap.Sync.Entries.{OwnNames, entry_of, lookup-sync_members}

-- A process that may still run: it is starting, ready, or about to stop.
abbrev pub may_run : State → Bool
may_run starting = true
may_run ready = true
may_run stopping = true
may_run _ = false

-- A process has to be shut down if no model of the group has its name and it may still run.
abbrev pub must_end : List Text → Text → Process → Bool
must_end names name p = not (contains names name) && may_run p.state

-- What the shutdowns make of what the old map has for a name.
abbrev pub AfterShutDown :
    List Text → (Text → List Act) → Text → Option Process → Option Process → Type 0
AfterShutDown names others name none q = q ≡ none
AfterShutDown names others name (some p) q =
    q ≡ (if must_end names name p then shut_down p (others name) else some p)

is_removed-must_end :
    (names : List Text) (name : Text) (p : Process)
    → is_removed names name p ≡ must_end names name p
unfolding state_eq
is_removed-must_end names name p = go p.state (contains names name)
  where
    go :
        (x : State) (named : Bool)
        → not (named || (state_eq x stopped || state_eq x shutdown)) ≡ (not named && may_run x)
    go stopped true = refl
    go stopped false = refl
    go starting true = refl
    go starting false = refl
    go ready true = refl
    go ready false = refl
    go stopping true = refl
    go stopping false = refl
    go shutdown true = refl
    go shutdown false = refl

step_after :
    (names : List Text) (others : Text → List Act) (n k : Text) (p : Process) (q : Option Process)
    (old : Dict Process) (r : Option (Dict Process)) {store : Dict Process}
    → q ≡ (if must_end names n p then shut_down p (others n) else some p)
    → put_first n q r ≡ some store
    → ((rest : Dict Process)
        → r ≡ some rest
        → AfterShutDown names others k (lookup k old) (lookup k rest))
    → AfterShutDown names others k (lookup k ((n, p) ∷ old)) (lookup k store)
unfolding lookup
step_after names others n k p none old r e h ih = cc
step_after names others n k p (some q) old none e h ih = cc
step_after names others n k p (some q) old (some rest) {store} e h ih =
    let s : store ≡ (n, q) ∷ rest = ground arith in
    rw s (elim (Bool-cases (text_eq n k)) [
      | inl same ↦ rw same (rw (← (text_eq_iff n k).0 same) e)
      | inr other ↦ rw other (ih rest refl)
    ])

pub lookup-shut_down_removed :
    (names : List Text) (others : Text → List Act) (old : Dict Process) {store : Dict Process}
    (k : Text)
    → shut_down_removed names others old ≡ some store
    → AfterShutDown names others k (lookup k old) (lookup k store)
unfolding shut_down_removed
lookup-shut_down_removed names others [] {store} k h =
    let s : store ≡ [] = ground arith in rw s (unfold lookup in refl)
lookup-shut_down_removed names others ((n, p) ∷ old) k h =
    step_after names others n k p (if is_removed names n p then shut_down p (others n) else some p)
      old (shut_down_removed names others old)
      (ap (λ (b : Bool). if b then shut_down p (others n) else some p)
        (is_removed-must_end names n p))
      h (λ rest e. lookup-shut_down_removed names others old k e)

abbrev pub placed : Dict Process → Option Entry → Option Process
placed store none = none
placed store (some e) = some (place_entry store e)

pub lookup-place_entries :
    (store : Dict Process) (next : Dict Entry) (name : Text)
    → lookup name (place_entries store next) ≡ placed store (lookup name next)
unfolding place_entries lookup
lookup-place_entries store [] name = refl
lookup-place_entries store ((n, e) ∷ next) name = elim (Bool-cases (text_eq n name)) [
  | inl same ↦ rw same refl
  | inr other ↦ rw other (lookup-place_entries store next name)
]

-- The process for a name: the old one if it is not stopped, else a new one.
abbrev pub next_process : Config → Text → Option Process → Process
next_process c name none = new_process c.health_check_timeout (settings_of (lookup name c.models))
next_process c name (some p) =
    if state_eq p.state stopped
    then new_process c.health_check_timeout (settings_of (lookup name c.models))
    else p

placed-entry_of :
    (old : Dict Process) (c : Config) (names : List Text) (others : Text → List Act)
    (store : Dict Process) (name : Text) (o : Option Process)
    → contains names name ≡ true
    → AfterShutDown names others name o (lookup name store)
    → place_entry store
        (entry_for c.health_check_timeout (settings_of (lookup name c.models)) (keyed name o))
      ≡ next_process c name o
placed-entry_of old c names others store name none k a = refl
placed-entry_of old c names others store name (some p) k a =
    elim (Bool-cases (state_eq p.state stopped)) [
      | inl dead ↦ rw dead refl
      | inr alive ↦ rw alive (ap (process_or p) (rw k at a))
    ]

-- A group after the sync, against the one before and the new configuration.
pub record SyncEnd (g : ProcessGroup) (new : GroupConfig) (c : Config) (others : Text → List Act)
    (h : ProcessGroup) (store : Dict Process) : Type 0 where
  pub processes :
      (name : Text)
      → lookup name h.processes ≡ (
          if contains (next_members c new.members) name
          then some (next_process c name (lookup name g.processes))
          else none)
  pub left :
      (name : Text)
      → AfterShutDown
          (next_members c new.members)
          others
          name
          (lookup name g.processes)
          (lookup name store)
  pub last_used : h.last_used_process ≡ (
      if contains (next_members c new.members) g.last_used_process then g.last_used_process else [])
  pub same_id : h.id ≡ g.id
  pub new_config : h.config ≡ c
  pub new_swap : h.swap ≡ new.swap
  pub new_exclusive : h.exclusive ≡ new.exclusive
  pub new_persistent : h.persistent ≡ new.persistent

none-ne-some {ℓ} : {A : Type ℓ} {a : A} → none ≡ some a → ⊥
none-ne-some h = cc

some_injective {ℓ} : {A : Type ℓ} {a b : A} → some a ≡ some b → a ≡ b
some_injective h = cc

-- A sync that returns has shut the removed processes down.
pub sync_group_inv :
    (g : ProcessGroup) (new : GroupConfig) (c : Config) (others : Text → List Act)
    {h : ProcessGroup} {store : Dict Process}
    → sync_group g new c others ≡ some (h, store)
    → (s : Dict Process) × (shut_down_removed (next_members c new.members) others g.processes
        ≡ some s)
      × (◌≡◌ {A = ProcessGroup × Dict Process}
          (
            record (sync_existing_group_runtime g new c).group {
              processes = place_entries s (sync_members g.processes c new.members []);
            },
            s,
          )
          (h, store))
unfolding sync_group sync_existing_group_runtime
sync_group_inv g new c others {h} {store} e =
    elim (Option-cases (shut_down_removed (next_members c new.members) others g.processes)) [
      | inl waits ↦ absurd (none-ne-some (rw waits at e))
      | inr (s, q) ↦
          let f =
            subst (λ (x : Option (ProcessGroup × Dict Process)). x ≡ some (h, store))
              (ap (settle (sync_existing_group_runtime g new c)) q) e in
          (s, q, some_injective f)
    ]

last_used_lem :
    (b : Bool) (last : Text) (e : Entry)
    → last_used_in last (if b then some e else none) ≡ (if b then last else [])
last_used_lem true last e = refl
last_used_lem false last e = refl

module _ (g : ProcessGroup) (new : GroupConfig) (c : Config) (others : Text → List Act)
    (own : OwnNames g.processes c new.members) where
  found_next :
      (name : Text)
      → lookup name (sync_members g.processes c new.members []) ≡ (
          if contains (next_members c new.members) name
          then some (entry_of g.processes c name)
          else none)
  unfolding lookup
  found_next name = lookup-sync_members g.processes c new.members [] name own

  placed_next :
      (store : Dict Process) (name : Text) (b : Bool)
      → contains (next_members c new.members) name ≡ b
      → AfterShutDown
          (next_members c new.members)
          others
          name
          (lookup name g.processes)
          (lookup name store)
      → placed store (if b then some (entry_of g.processes c name) else none)
        ≡ (if b then some (next_process c name (lookup name g.processes)) else none)
  placed_next store name false e a = refl
  placed_next store name true e a = ap some (
      placed-entry_of g.processes c (next_members c new.members) others store name
        (lookup name g.processes) e a)

  -- Applying a configuration to a group of which no member is an alias that the group knew as a
  -- model. The group holds exactly the models that its members name: the process that it had, where
  -- that is not stopped, else a new one with the new settings. Each old process that has no name in
  -- the group and is neither stopped nor shut down is shut down, the others are untouched. The
  -- model used last is forgotten if it is no longer in the group.
  pub sync_group-SyncEnd :
      {h : ProcessGroup} {store : Dict Process}
      → sync_group g new c others ≡ some (h, store)
      → SyncEnd g new c others h store
  unfolding sync_group sync_existing_group_runtime
  sync_group-SyncEnd {h} {store} e =
      let (s, q, f) = sync_group_inv g new c others e in
      let old_left = λ (name : Text).
        lookup-shut_down_removed (next_members c new.members) others g.processes name q in
      subst (λ (x : ProcessGroup × Dict Process). SyncEnd g new c others x.0 x.1) f
        (record {
          processes = λ name.
              lookup-place_entries s (sync_members g.processes c new.members []) name
              ∙ ap (placed s) (found_next name)
              ∙ placed_next s name (contains (next_members c new.members) name) refl
                  (old_left name);
          left = old_left;
          last_used =
              ap (last_used_in g.last_used_process) (found_next g.last_used_process)
              ∙ last_used_lem (contains (next_members c new.members) g.last_used_process)
                  g.last_used_process (entry_of g.processes c g.last_used_process);
          same_id = refl;
          new_config = refl;
          new_swap = refl;
          new_exclusive = refl;
          new_persistent = refl;
        })
