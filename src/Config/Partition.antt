-- ===== src/Config/Partition.antt =====
-- proxy/config/config.go: every model belongs to exactly one group.
use llama_swap.Base.{
  ℕ, ◌+◌, ◌≤◌, ◌<◌, ◌≡◌, refl, ◌⊎◌, inl, inr, List, [], ◌∷◌, Option, none, some, Bool, true, false,
  ◌||◌, arith, length, Option-cases,
}
use llama_swap.Base.Text.{Text, text_eq, text_eq_iff, contains}
use llama_swap.Base.Dict.{Dict, lookup, insert, keys, lookup-insert}
use llama_swap.Base.Sort.{contains-sort_texts}
use llama_swap.Config.Types.{GroupConfig, ModelConfig, Config, default_group_id, ok}
use llama_swap.Config.Aliases.{bind_cases, ok-injective}
use llama_swap.Config.Groups.{
  in_groups, ungrouped, default_members, default_group, add_default_group_to_config, check_member,
  check_members, validate_groups, groups_of,
}

-- What one accepted member adds.
check_member_lem :
    (id : Text) (prev : List Text) (usage more : Dict Text) (member : Text)
    → check_member id prev usage member ≡ ok more
    → (lookup member usage ≡ none) × (more ≡ insert member id usage)
unfolding check_member
check_member_lem id prev usage more member h = ground (
  arith,
  Option-cases (lookup member usage),
  ok-injective {c = insert member id usage} {d = more},
)

abbrev has : Option Text → Bool
has none = false
has (some id) = true

-- A name is in the map.
abbrev used : Dict Text → Text → Bool
used usage name = has (lookup name usage)

check_member-used :
    (id : Text) (prev : List Text) (usage more : Dict Text) (member name : Text)
    → check_member id prev usage member ≡ ok more
    → (used usage member ≡ false) × (used more name ≡ (text_eq member name || used usage name))
check_member-used id prev usage more member name h =
    let (fresh, e) = check_member_lem id prev usage more member h in
    (rw fresh, rw e (ground (arith, lookup-insert member name id usage)))

check_members-used :
    (id : Text) (prev : List Text) (usage more : Dict Text) (members : List Text) (name : Text)
    → check_members id prev usage members ≡ ok more
    → ((contains members name ≡ false) ⊎ (used usage name ≡ false))
      × (used more name ≡ (contains members name || used usage name))
unfolding check_members contains
check_members-used id prev usage more [] name h = (inl refl, rw (ok-injective h))
check_members-used id prev usage more (member ∷ members) name h =
    let (next, e, r) =
      bind_cases (check_member id prev usage member)
        (λ d. check_members id (member ∷ prev) d members) h in
    ground (
      arith,
      text_eq_iff member name,
      check_member-used id prev usage next member name e,
      check_members-used id (member ∷ prev) next more members name r,
    )

abbrev one_if : Bool → ℕ
one_if true = 1
one_if false = 0

validate_groups-count :
    (groups : Dict GroupConfig) (usage more : Dict Text) (name : Text)
    → validate_groups groups usage ≡ ok more
    → length (groups_of groups name) + one_if (used usage name) ≤ 1
unfolding validate_groups groups_of
validate_groups-count [] usage more name h = ground arith
validate_groups-count ((id, g) ∷ groups) usage more name h =
    let (next, e, r) =
      bind_cases (check_members id [] usage g.members) (λ d. validate_groups groups d) h in
    ground (
      arith,
      check_members-used id [] usage next g.members name e,
      validate_groups-count groups next more name r,
    )

-- When the validation of the groups succeeds, no name is a member of two groups.
pub validate_groups_at_most_one :
    (groups : Dict GroupConfig) (more : Dict Text) (name : Text)
    → validate_groups groups [] ≡ ok more
    → length (groups_of groups name) ≤ 1
validate_groups_at_most_one groups more name h =
    omega (arith, validate_groups-count groups [] more name h)

in_groups-insert :
    (id name : Text) (g : GroupConfig) (groups : Dict GroupConfig)
    → contains g.members name ≡ true
    → in_groups (insert id g groups) name ≡ true
unfolding in_groups insert
in_groups-insert id name g [] h = ground arith
in_groups-insert id name g ((j, k) ∷ groups) h = ground (arith, in_groups-insert id name g groups h)

in_groups-insert_other :
    (id name : Text) (g : GroupConfig) (groups : Dict GroupConfig)
    → lookup id groups ≡ none
    → in_groups groups name ≡ true
    → in_groups (insert id g groups) name ≡ true
unfolding in_groups insert lookup
in_groups-insert_other id name g [] n h = cc
in_groups-insert_other id name g ((j, k) ∷ groups) n h =
    ground (arith, in_groups-insert_other id name g groups)

contains-ungrouped :
    (groups : Dict GroupConfig) (models : Dict ModelConfig) (name : Text)
    → contains (keys models) name ≡ true
    → (contains (ungrouped groups models) name ≡ true) ⊎ (in_groups groups name ≡ true)
unfolding ungrouped contains
contains-ungrouped groups [] name h = cc
contains-ungrouped groups ((m, c) ∷ models) name h =
    ground (arith, text_eq_iff m name, contains-ungrouped groups models name)

default_or_other :
    (groups : Dict GroupConfig) (models : Dict ModelConfig) (name : Text)
    → contains (keys models) name ≡ true
    → (contains (default_members groups models) name ≡ true) ⊎ (in_groups groups name ≡ true)
default_or_other [] models name h = inl h
default_or_other (g ∷ groups) models name h = contains-ungrouped (g ∷ groups) models name h

-- With the default group added, every model is a member of some group, if no group that the
-- configuration declares has the default group's name.
pub add_default_group_covers :
    (c : Config) (name : Text)
    → lookup default_group_id c.groups ≡ none
    → contains (keys c.models) name ≡ true
    → in_groups (add_default_group_to_config c).groups name ≡ true
unfolding add_default_group_to_config default_group
add_default_group_covers c name n h = elim (default_or_other c.groups c.models name h) [
  | inl d ↦
      in_groups-insert default_group_id name (default_group c) c.groups
        (rw (contains-sort_texts name (default_members c.groups c.models)) d)
  | inr g ↦ in_groups-insert_other default_group_id name (default_group c) c.groups n g
]

groups_of-pos :
    (groups : Dict GroupConfig) (name : Text)
    → in_groups groups name ≡ true
    → 0 < length (groups_of groups name)
unfolding in_groups groups_of
groups_of-pos [] name h = cc
groups_of-pos ((id, g) ∷ groups) name h = ground (arith, groups_of-pos groups name)

-- Every model of a configuration that loads belongs to exactly one group: the default group takes the
-- models that no declared group has, and the validation refuses a name that two groups have. The
-- condition is that no declared group is named like the default group.
pub groups_partition :
    (c : Config) (more : Dict Text) (name : Text)
    → lookup default_group_id c.groups ≡ none
    → validate_groups (add_default_group_to_config c).groups [] ≡ ok more
    → contains (keys c.models) name ≡ true
    → length (groups_of (add_default_group_to_config c).groups name) ≡ 1
groups_partition c more name n v h =
    let groups = (add_default_group_to_config c).groups in
    omega (
      arith,
      validate_groups_at_most_one groups more name v,
      groups_of-pos groups name (add_default_group_covers c name n h),
    )
