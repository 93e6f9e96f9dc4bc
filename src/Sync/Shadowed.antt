-- ===== src/Sync/Shadowed.antt =====
-- proxy/config_runtime_sync.go: a model that becomes an alias while its process runs.
use llama_swap.Base.{
  ◌≡◌, ◌≢◌, refl, sym, ap, subst, ◌∙◌, ◌⊎◌, inl, inr, List, [], ◌∷◌, Option, none, some, true,
  false,
}
use llama_swap.Base.Text.{Text, text_eq_refl, text_eq_ne, contains}
use llama_swap.Base.Dict.{Dict, lookup, lookup-insert}
use llama_swap.Config.Types.{GroupConfig, Config}
use llama_swap.Config.Names.{real_model_name, find_config}
use llama_swap.Process.State.{Process, ready, state_eq}
use llama_swap.Process.Stop.{Act, shut_down}
use llama_swap.Group.State.{ProcessGroup, settings_of}
use llama_swap.Sync.Runtime.{
  Entry, kept, existing_process, entry_for, place_entries, sync_member, sync_members, next_members,
  process_or, sync_existing_group_runtime, sync_group,
}
use llama_swap.Process.Calm.{IsReady}
use llama_swap.Process.Final.{IfShutDown, shut_down-IfShutDown}
use llama_swap.Sync.Outcome.{
  must_end, placed, lookup-place_entries, lookup-shut_down_removed, sync_group_inv,
}

-- Of the members, only the alias resolves to the name.
abbrev pub OnlyAlias : Config → Text → Text → List Text → Type 0
OnlyAlias c name alias [] = Unit
OnlyAlias c name alias (m ∷ members) =
    ((m ≡ alias) ⊎ (real_model_name c m ≢ some name)) × OnlyAlias c name alias members

abbrev alias_entry : Dict Process → Config → Text → Text → Entry
alias_entry old c name alias =
    entry_for c.health_check_timeout (settings_of (lookup name c.models))
      (existing_process old name alias)

module _ (old : Dict Process) (c : Config) (name alias : Text)
    (resolves : real_model_name c alias ≡ some name) where
  other_member :
      (m : Text) (r : Option Text) (next : Dict Entry)
      → r ≢ some name
      → real_model_name c m ≡ r
      → lookup name (sync_member old c.health_check_timeout m (find_config c m) next)
        ≡ lookup name next
  unfolding find_config
  other_member m none next ne e = rw e refl
  other_member m (some r) next ne e = rw e (
      lookup-insert r name
        (entry_for c.health_check_timeout (settings_of (lookup r c.models))
          (existing_process old r m))
        next
      ∙ rw (text_eq_ne r name (λ q. ne (ap some q))) refl)

  lookup-sync_alias :
      (members : List Text) (next : Dict Entry)
      → OnlyAlias c name alias members
      → (contains members alias ≡ true) ⊎ (lookup name next ≡ some (alias_entry old c name alias))
      → lookup name (sync_members old c members next) ≡ some (alias_entry old c name alias)
  unfolding sync_members contains
  lookup-sync_alias [] next only (inl h) = cc
  lookup-sync_alias [] next only (inr h) = h
  lookup-sync_alias (m ∷ members) next (inl e, only) h = rw e (
      lookup-sync_alias members
        (sync_member old c.health_check_timeout alias (find_config c alias) next) only
        (inr (
          unfold find_config in
          rw resolves (
            lookup-insert name name (alias_entry old c name alias) next
            ∙ rw (text_eq_refl name) refl))))
  lookup-sync_alias (m ∷ members) next (inr ne, only) h =
      let same = other_member m (real_model_name c m) next ne refl in
      lookup-sync_alias members (sync_member old c.health_check_timeout m (find_config c m) next)
        only
        (elim h [
          | inl found ↦
              inl (rw (text_eq_ne m alias (λ q. ne (ap (real_model_name c) q ∙ resolves))) at found)
          | inr put ↦ inr (same ∙ put)
        ])

if_placed : (p : Process) (r : Option Process) → IfShutDown r → IfShutDown (some (process_or p r))
if_placed p none h = absurd h
if_placed p (some q) h = h

must_end_ready :
    (names : List Text) (alias : Text) (p : Process)
    → contains names alias ≡ false
    → p.state ≡ ready
    → must_end names alias p ≡ true
unfolding state_eq
must_end_ready names alias p gone up = rw (gone, up) refl

alias_entry_kept :
    (old : Dict Process) (c : Config) (name alias : Text) (p : Process)
    → lookup name old ≡ none
    → lookup alias old ≡ some p
    → p.state ≡ ready
    → alias_entry old c name alias ≡ kept alias p
unfolding state_eq
alias_entry_kept old c name alias p unknown had up = rw (unknown, had) (rw up refl)

-- A model that the new configuration makes an alias of a model that the group does not know yet,
-- while its process is ready and its old name is still listed as the member: the new model takes
-- over the process, and the same process is then shut down. Nobody else acts on the process.
pub sync_group_shadowed :
    (g : ProcessGroup) (new : GroupConfig) (c : Config) (others : Text → List Act)
    (name alias : Text) {h : ProcessGroup} {store : Dict Process} {p : Process}
    → real_model_name c alias ≡ some name
    → OnlyAlias c name alias new.members
    → contains new.members alias ≡ true
    → contains (next_members c new.members) alias ≡ false
    → lookup name g.processes ≡ none
    → lookup alias g.processes ≡ some p
    → IsReady p
    → others alias ≡ []
    → sync_group g new c others ≡ some (h, store)
    → IfShutDown (lookup name h.processes)
unfolding sync_existing_group_runtime
sync_group_shadowed g new c others name alias {h} {store} {p} resolves only listed gone unknown had
      up quiet e =
    let (s, q, f) = sync_group_inv g new c others e in
    let after = lookup-shut_down_removed (next_members c new.members) others g.processes alias q in
    let stored : lookup alias s ≡ shut_down p [] =
      rw (had, must_end_ready (next_members c new.members) alias p gone up.at_ready, quiet) at
        after in
    let next = sync_members g.processes c new.members [] in
    let at_name : lookup name (place_entries s next) ≡ some (process_or p (lookup alias s)) =
      lookup-place_entries s next name
      ∙ ap (placed s) (
          lookup-sync_alias g.processes c name alias resolves new.members [] only (inl listed)
          ∙ ap some (alias_entry_kept g.processes c name alias p unknown had up.at_ready)) in
    subst (λ (x : ProcessGroup × Dict Process). IfShutDown (lookup name x.0.processes)) f
      (rw at_name
        (if_placed p (lookup alias s) (subst IfShutDown (sym stored) (shut_down-IfShutDown p up))))
