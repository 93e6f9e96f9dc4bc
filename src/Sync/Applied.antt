-- ===== src/Sync/Applied.antt =====
-- proxy/config_runtime_sync.go: the manager's groups once a new configuration is applied.
use llama_swap.Base.{
  ◌≡◌, ◌≢◌, refl, inl, inr, sym, ap, subst, ◌∙◌, List, [], ◌∷◌, Option, none, some, Bool, true,
  false, if◌then◌else◌, arith, Bool-cases,
}
use llama_swap.Base.Text.{Text, text_eq, text_eq_iff}
use llama_swap.Base.Dict.{Dict, lookup}
use llama_swap.Config.Types.{GroupConfig, Config}
use llama_swap.Process.State.{Process}
use llama_swap.Process.Stop.{Act}
use llama_swap.Group.State.{ProcessGroup, new_process_group, shut_down_group}
use llama_swap.Sync.Runtime.{
  sync_group, group_of_sync, next_group, put_group, next_groups, is_group_of, shut_down_groups,
  both_groups, apply_config_and_sync_process_groups,
}
use llama_swap.Sync.Entries.{OwnNames}
use llama_swap.Sync.Outcome.{SyncEnd, sync_group-SyncEnd}

-- What a loop that puts a group for an id, or none, finds for the id.
put_group_lem :
    (id k : Text) (g : Option ProcessGroup) (r : Option (Dict ProcessGroup))
    {new : Dict ProcessGroup}
    → put_group id g r ≡ some new
    → (rest : Dict ProcessGroup) × (r ≡ some rest)
      × ((h : ProcessGroup) × (g ≡ some h))
      × (lookup k new ≡ (if text_eq id k then g else lookup k rest))
unfolding lookup
put_group_lem id k none r e = cc
put_group_lem id k (some g) none e = cc
put_group_lem id k (some g) (some rest) e = (rest, refl, (g, refl), ground arith)

-- What the new map has for an id, given what the configuration has for it.
abbrev NextAt :
    Dict ProcessGroup
    → Config
    → (Text → Text → List Act)
    → Text
    → Option GroupConfig
    → Option ProcessGroup
    → Type 0
NextAt old c others id none g = g ≡ none
NextAt old c others id (some new) g =
    (h : ProcessGroup) × (next_group id new c (others id) (lookup id old) ≡ some h) × (g ≡ some h)

next_step :
    (old : Dict ProcessGroup) (c : Config) (others : Text → Text → List Act) (id k : Text)
    (new : GroupConfig) (found : Option GroupConfig) (g : Option ProcessGroup)
    → (h : ProcessGroup) × (next_group id new c (others id) (lookup id old) ≡ some h)
    → NextAt old c others k found g
    → NextAt old c others k
        (if text_eq id k then some new else found)
        (if text_eq id k then next_group id new c (others id) (lookup id old) else g)
next_step old c others id k new found g (h, put) a = elim (Bool-cases (text_eq id k)) [
  | inl same ↦ rw same (rw (← (text_eq_iff id k).0 same) (h, put, put))
  | inr other ↦ rw other a
]

lookup-next_groups :
    (old : Dict ProcessGroup) (c : Config) (others : Text → Text → List Act)
    (groups : Dict GroupConfig) (k : Text) {new : Dict ProcessGroup}
    → next_groups old c others groups ≡ some new
    → NextAt old c others k (lookup k groups) (lookup k new)
unfolding next_groups lookup
lookup-next_groups old c others [] k e = ground arith
lookup-next_groups old c others ((id, g) ∷ groups) k e =
    let (rest, r, put, found) =
      put_group_lem id k (next_group id g c (others id) (lookup id old))
        (next_groups old c others groups) e in
    rw found (
      next_step old c others id k g (lookup k groups) (lookup k rest) put
        (lookup-next_groups old c others groups k r))

-- What becomes of an old group that the configuration has or has not.
abbrev GoneAt :
    (Text → Text → List Act)
    → Text
    → Option GroupConfig
    → Option ProcessGroup
    → Option ProcessGroup
    → Type 0
GoneAt others id (some new) g ended = ended ≡ none
GoneAt others id none none ended = ended ≡ none
GoneAt others id none (some g) ended = ended ≡ shut_down_group g (others id)

gone_kept :
    (others : Text → Text → List Act) (k : Text) (fk : Option GroupConfig) (g : ProcessGroup)
    (o ended : Option ProcessGroup) (b : Bool)
    → (b ≡ true → fk ≢ none)
    → GoneAt others k fk o ended
    → GoneAt others k fk (if b then some g else o) ended
gone_kept others k fk g o ended false h a = a
gone_kept others k none g o ended true h a = absurd (h refl refl)
gone_kept others k (some new) g o ended true h a = a

gone_put :
    (others : Text → Text → List Act) (id k : Text) (fk : Option GroupConfig) (g : ProcessGroup)
    (o rest : Option ProcessGroup)
    → (id ≡ k → none ≡ fk)
    → GoneAt others k fk o rest
    → GoneAt others k fk
        (if text_eq id k then some g else o)
        (if text_eq id k then shut_down_group g (others id) else rest)
gone_put others id k fk g o rest h a = elim (Bool-cases (text_eq id k)) [
  | inl same ↦
      let e = (text_eq_iff id k).0 same in
      rw same (
        subst
          (λ (f : Option GroupConfig). GoneAt others k f (some g) (shut_down_group g (others id)))
          (h e) (ap (λ (i : Text). shut_down_group g (others i)) e))
  | inr other ↦ rw other a
]

gone_step :
    (others : Text → Text → List Act) (id k : Text) (f fk : Option GroupConfig) (g : ProcessGroup)
    (o : Option ProcessGroup) (r : Option (Dict ProcessGroup)) {ended : Dict ProcessGroup}
    → (id ≡ k → f ≡ fk)
    → (if is_group_of f then r else put_group id (shut_down_group g (others id)) r) ≡ some ended
    → ((rest : Dict ProcessGroup) → r ≡ some rest → GoneAt others k fk o (lookup k rest))
    → GoneAt others k fk (if text_eq id k then some g else o) (lookup k ended)
gone_step others id k (some new) fk g o r {ended} h e ih =
    gone_kept others k fk g o (lookup k ended) (text_eq id k)
      (λ same n. cc (h ((text_eq_iff id k).0 same))) (ih ended e)
gone_step others id k none fk g o r h e ih =
    let (rest, q, _, found) = put_group_lem id k (shut_down_group g (others id)) r e in
    rw found (gone_put others id k fk g o (lookup k rest) h (ih rest q))

none_gone :
    (others : Text → Text → List Act) (k : Text) (f : Option GroupConfig)
    → GoneAt others k f none none
none_gone others k none = refl
none_gone others k (some new) = refl

lookup-shut_down_groups :
    (c : Config) (others : Text → Text → List Act) (old : Dict ProcessGroup) (k : Text)
    {ended : Dict ProcessGroup}
    → shut_down_groups c others old ≡ some ended
    → GoneAt others k (lookup k c.groups) (lookup k old) (lookup k ended)
unfolding shut_down_groups lookup
lookup-shut_down_groups c others [] k {ended} e =
    let s : ended ≡ [] = ground arith in rw s (none_gone others k (lookup k c.groups))
lookup-shut_down_groups c others ((id, g) ∷ old) k e =
    gone_step others id k (lookup id c.groups) (lookup k c.groups) g (lookup k old)
      (shut_down_groups c others old) (λ same. ap (λ (i : Text). lookup i c.groups) same) e
      (λ rest q. lookup-shut_down_groups c others old k q)

-- What the manager has for an id, from what it had and what the configuration has.
abbrev pub OwnIn : Config → Option ProcessGroup → Option GroupConfig → Type 0
OwnIn c (some g) (some new) = OwnNames g.processes c new.members
OwnIn c _ _ = Unit

abbrev pub ApplyEnd :
    Config
    → (Text → Text → List Act)
    → Text
    → Option ProcessGroup
    → Option GroupConfig
    → Option ProcessGroup
    → Option ProcessGroup
    → Type 0
ApplyEnd c others id (some g) (some new) now ended =
    (h : ProcessGroup) × (store : Dict Process) × (now ≡ some h)
    × SyncEnd g new c (others id) h store
    × (ended ≡ none)
ApplyEnd c others id none (some new) now ended = (now ≡ new_process_group id c) × (ended ≡ none)
ApplyEnd c others id (some g) none now ended =
    (now ≡ none) × (ended ≡ shut_down_group g (others id))
ApplyEnd c others id none none now ended = (now ≡ none) × (ended ≡ none)

group_of_sync_inv :
    (o : Option (ProcessGroup × Dict Process)) {h : ProcessGroup}
    → group_of_sync o ≡ some h
    → (store : Dict Process) × (o ≡ some (h, store))
group_of_sync_inv none e = cc
group_of_sync_inv (some (g, store)) e = (store, cc)

both_groups_inv :
    (a b : Option (Dict ProcessGroup)) {new ended : Dict ProcessGroup}
    → both_groups a b ≡ some (new, ended)
    → (a ≡ some new) × (b ≡ some ended)
both_groups_inv none b e = cc
both_groups_inv (some x) none e = cc
both_groups_inv (some x) (some y) e = ground arith

group_end :
    (c : Config) (others : Text → Text → List Act) (id : Text) (old : Dict ProcessGroup)
    (o : Option ProcessGroup) (f : Option GroupConfig) (now ended : Option ProcessGroup)
    → lookup id old ≡ o
    → OwnIn c o f
    → NextAt old c others id f now
    → GoneAt others id f o ended
    → ApplyEnd c others id o f now ended
group_end c others id old none none now ended e own n a = (n, a)
group_end c others id old (some g) none now ended e own n a = (n, a)
group_end c others id old none (some new) now ended e own (h, put, n) a =
    (n ∙ sym put ∙ ap (next_group id new c (others id)) e, a)
group_end c others id old (some g) (some new) now ended e own (h, put, n) a =
    let (store, s) = group_of_sync_inv (sync_group g new c (others id)) (rw e at put) in
    (h, store, n, sync_group-SyncEnd g new c (others id) own s, a)

-- Applying a configuration while the manager runs, for each group's id, the members of the group
-- being names that the group did not know as other models. A group that the configuration still
-- has becomes what `SyncEnd` says: its processes that are not stopped are kept for the models that
-- stay, the other models get new processes, and each old process that is starting, ready or
-- stopping and whose name is no model of the group any more is shut down, the others untouched. A
-- group that is new in the configuration is made by `NewProcessGroup`. A group that is no longer
-- there is shut down and ended.
pub apply_config_and_sync_process_groups-ApplyEnd :
    (old : Dict ProcessGroup) (c : Config) (others : Text → Text → List Act)
    {new ended : Dict ProcessGroup} (id : Text)
    → apply_config_and_sync_process_groups old c others ≡ some (new, ended)
    → OwnIn c (lookup id old) (lookup id c.groups)
    → ApplyEnd c others id (lookup id old) (lookup id c.groups) (lookup id new) (lookup id ended)
unfolding apply_config_and_sync_process_groups
apply_config_and_sync_process_groups-ApplyEnd old c others {new} {ended} id e own =
    let (n, g) =
      both_groups_inv (next_groups old c others c.groups) (shut_down_groups c others old) e in
    group_end c others id old (lookup id old) (lookup id c.groups) (lookup id new) (lookup id ended)
      refl own (lookup-next_groups old c others c.groups id n)
      (lookup-shut_down_groups c others old id g)
