-- ===== src/Sync/Entries.antt =====
-- proxy/config_runtime_sync.go: the map of processes that the loop over the members makes.
use llama_swap.Base.{
  ◌≡◌, refl, ap, ◌⊎◌, inl, inr, ◌∙◌, List, [], ◌∷◌, Option, none, some, Bool, true, false,
  if◌then◌else◌, ◌||◌, Bool-cases, Option-cases,
}
use llama_swap.Base.Text.{Text, text_eq, text_eq_iff, contains}
use llama_swap.Base.Dict.{Dict, lookup, insert, lookup-insert}
use llama_swap.Config.Types.{Config}
use llama_swap.Config.Names.{real_model_name, find_config}
use llama_swap.Process.State.{Process}
use llama_swap.Group.State.{settings_of}
use llama_swap.Sync.Runtime.{
  Entry, keyed, or_else, existing_process, entry_for, sync_members, next_members,
}

-- No member that is an alias in the new configuration is a name of the old map.
abbrev pub OwnName : Dict Process → Text → Option Text → Type 0
OwnName old member none = Unit
OwnName old member (some name) = (name ≡ member) ⊎ (lookup member old ≡ none)

abbrev pub OwnNames : Dict Process → Config → List Text → Type 0
OwnNames old c [] = Unit
OwnNames old c (member ∷ members) =
    OwnName old member (real_model_name c member) × OwnNames old c members

-- The value for a name, read off the old map and the configuration of that name alone.
abbrev pub entry_of : Dict Process → Config → Text → Entry
entry_of old c name =
    entry_for c.health_check_timeout (settings_of (lookup name c.models))
      (keyed name (lookup name old))

or_else_same {ℓ} : {A : Type ℓ} (a : Option A) → or_else a a ≡ a
or_else_same none = refl
or_else_same (some x) = refl

or_else-none {ℓ} : {A : Type ℓ} (a : Option A) → or_else a none ≡ a
or_else-none none = refl
or_else-none (some x) = refl

existing_process_lem :
    (old : Dict Process) (name member : Text)
    → (name ≡ member) ⊎ (lookup member old ≡ none)
    → existing_process old name member ≡ keyed name (lookup name old)
existing_process_lem old name member (inl e) =
    rw (← e) (or_else_same (keyed name (lookup name old)))
existing_process_lem old name member (inr e) = rw e (or_else-none (keyed name (lookup name old)))

-- Once a member has put its entry, the names after it and the entry agree with the rule.
put_entry :
    (old : Dict Process) (c : Config) (r name : Text) (e : Entry) (later : Bool) (x : Option Entry)
    → e ≡ entry_of old c r
    → (if later then some (entry_of old c name) else if text_eq r name then some e else x)
      ≡ (if text_eq r name || later then some (entry_of old c name) else x)
put_entry old c r name e later x h = elim (Bool-cases (text_eq r name)) [
  | inl same ↦ rw same (
      let n : r ≡ name = (text_eq_iff r name).0 same in
      if_same later (some (entry_of old c name)) (some e) (ap some (h ∙ ap (entry_of old c) n)))
  | inr other ↦ rw other refl
]
  where
    if_same : (b : Bool) (u v : Option Entry) → v ≡ u → (if b then u else v) ≡ u
    if_same true u v q = refl
    if_same false u v q = q

pub lookup-sync_members :
    (old : Dict Process) (c : Config) (members : List Text) (next : Dict Entry) (name : Text)
    → OwnNames old c members
    → lookup name (sync_members old c members next) ≡ (
        if contains (next_members c members) name
        then some (entry_of old c name)
        else lookup name next)
unfolding sync_members next_members find_config contains
lookup-sync_members old c [] next name h = refl
lookup-sync_members old c (m ∷ members) next name h = elim (Option-cases (real_model_name c m)) [
  | inl none_found ↦ rw none_found (lookup-sync_members old c members next name h.1)
  | inr (r, found) ↦
      let e =
        entry_for c.health_check_timeout (settings_of (lookup r c.models))
          (existing_process old r m) in
      rw found (
        lookup-sync_members old c members (insert r e next) name h.1
        ∙ ap
            (λ (x : Option Entry).
              if contains (next_members c members) name then some (entry_of old c name) else x)
            (lookup-insert r name e next)
        ∙ put_entry old c r name e (contains (next_members c members) name) (lookup name next) (
            ap (entry_for c.health_check_timeout (settings_of (lookup r c.models)))
              (existing_process_lem old r m (rw found at h.0))))
]
