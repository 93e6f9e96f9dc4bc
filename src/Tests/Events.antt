-- ===== src/Tests/Events.antt =====
-- event/event.go on concrete inputs.
use llama_swap.Base.{
  ℕ, ◌≡◌, refl, List, [], ◌∷◌, map, none, some, true, if◌then◌else◌, ◌==◌, arith, length, all,
}
use llama_swap.Event.Wakeups.{
  Turn, publishes, retries, listens, notifies, new_hub, turn, turns, publish, deliver, retry_with,
  notify_with, wake_all,
}
use llama_swap.Event.Heeded.{any_waits, any_has_work, turns-has_work}
use llama_swap.Event.Registry.{Registry, find_group, insert_group, search}
use llama_swap.Event.Search.{Ascending, group_at, find_group-group_at}
use llama_swap.Event.Insertion.{find_group-insert_group}
use llama_swap.Event.Queue.{
  Step, broadcasts, adds, dels, takes, handles, returns, new_group, run, longest,
}
use llama_swap.Event.Delivery.{view, due, run-due}
use llama_swap.Event.Bounded.{fits, run-fit}

-- Groups are numbers here.
abbrev registry : Registry ℕ
registry = record { keys = 2 ∷ 5 ∷ 9 ∷ []; grps = 20 ∷ 50 ∷ 90 ∷ [] }

ascends : Ascending registry.keys
ascends = (ground arith, (ground arith, tt))

find_group-group_at_example : find_group registry 5 ≡ group_at registry.keys registry.grps 5
find_group-group_at_example = find_group-group_at registry 5 ascends refl

absent : find_group registry 7 ≡ none
unfolding find_group search
absent = refl

find_group-insert_group_example :
    Ascending (insert_group registry 7 70).keys
    × (length (insert_group registry 7 70).keys ≡ length (insert_group registry 7 70).grps)
    × (find_group (insert_group registry 7 70) 9
        ≡ (if 7 == 9 then some 70 else find_group registry 9))
find_group-insert_group_example = find_group-insert_group registry 7 70 9 ascends refl absent

-- The second broadcast waits, as the only queue is full.
abbrev steps : List (Step ℕ)
steps =
    adds
    ∷ broadcasts 1
    ∷ broadcasts 2
    ∷ takes 0
    ∷ broadcasts 3
    ∷ handles 0
    ∷ dels 0
    ∷ takes 0
    ∷ handles 0
    ∷ returns 0
    ∷ []

run-due_example : map view (run (new_group ℕ 1) steps).consumers ≡ due (new_group ℕ 1) steps []
run-due_example = run-due 1 steps

run-fit_example : all (fits 1) (run (new_group ℕ 1) steps).consumers ≡ true
run-fit_example = run-fit 1 steps

-- A consumer with a full queue, for which a broadcast waits.
abbrev crowd : List (Turn ℕ)
crowd = Turn.adds ∷ publishes 7 ∷ listens 0 ∷ publishes 8 ∷ publishes 9 ∷ []

crowd_waits : any_waits (turns (new_hub ℕ 1) crowd).publishers ≡ true
unfolding turns turn publish deliver wake_all new_hub longest
crowd_waits = refl

turns-has_work_example : any_has_work (turns (new_hub ℕ 1) crowd).subs ≡ true
turns-has_work_example = turns-has_work 1 crowd (omega arith) crowd_waits

-- The caller goes through once the consumer has worked off its buffer and taken its queue.
crowd_goes_on :
    (turns (new_hub ℕ 1) (
      Turn.adds
      ∷ publishes 7
      ∷ publishes 8
      ∷ listens 0
      ∷ Turn.handles 0
      ∷ notifies 0
      ∷ retries 0
      ∷ [])).publishers
    ≡ []
unfolding turns turn publish deliver retry_with notify_with wake_all new_hub longest
crowd_goes_on = refl
