-- ===== src/Config/Replaced.antt =====
-- proxy/config/config.go: a declared group that is named like the default group.
use llama_swap.Base.{◌<◌, ◌≡◌, refl, ◌∙◌, List, [], ◌∷◌, some, true, false, arith, length}
use llama_swap.Base.Text.{Text, text_eq_iff, contains}
use llama_swap.Base.Dict.{Dict, lookup, insert}
use llama_swap.Base.Sort.{contains-sort_texts}
use llama_swap.Config.Types.{GroupConfig, ModelConfig, Config, default_group_id}
use llama_swap.Config.Groups.{
  in_groups, ungrouped, default_members, default_group, add_default_group_to_config, groups_of,
}

groups_of-found :
    (id name : Text) (g : GroupConfig) (groups : Dict GroupConfig)
    → lookup id groups ≡ some g
    → contains g.members name ≡ true
    → 0 < length (groups_of groups name)
unfolding lookup groups_of
groups_of-found id name g [] e h = cc
groups_of-found id name g ((j, k) ∷ groups) e h = ground (arith, groups_of-found id name g groups)

nil_of_length : (ts : List Text) → length ts ≡ 0 → ts ≡ []
nil_of_length [] e = refl
nil_of_length (t ∷ ts) e = absurd (omega arith)

groups_of-insert :
    (id name : Text) (g other : GroupConfig) (groups : Dict GroupConfig)
    → lookup id groups ≡ some g
    → contains g.members name ≡ true
    → contains other.members name ≡ false
    → length (groups_of groups name) ≡ 1
    → length (groups_of (insert id other groups) name) ≡ 0
unfolding lookup groups_of insert
groups_of-insert id name g other [] e h n l = cc
groups_of-insert id name g other ((j, k) ∷ groups) e h n l =
    ground (arith, groups_of-found id name g groups, groups_of-insert id name g other groups)

lacks_grouped :
    (groups : Dict GroupConfig) (models : Dict ModelConfig) (name : Text)
    → in_groups groups name ≡ true
    → contains (ungrouped groups models) name ≡ false
unfolding ungrouped contains
lacks_grouped groups [] name h = refl
lacks_grouped groups ((m, c) ∷ models) name h =
    ground (arith, text_eq_iff m name, lacks_grouped groups models name)

in_groups-found :
    (id name : Text) (g : GroupConfig) (groups : Dict GroupConfig)
    → lookup id groups ≡ some g
    → contains g.members name ≡ true
    → in_groups groups name ≡ true
unfolding lookup in_groups
in_groups-found id name g [] e h = cc
in_groups-found id name g ((j, k) ∷ groups) e h = ground (arith, in_groups-found id name g groups)

default_lacks :
    (id name : Text) (g : GroupConfig) (groups : Dict GroupConfig) (models : Dict ModelConfig)
    → lookup id groups ≡ some g
    → contains g.members name ≡ true
    → contains (default_members groups models) name ≡ false
unfolding lookup
default_lacks id name g [] models e h = cc
default_lacks id name g (p ∷ groups) models e h =
    lacks_grouped (p ∷ groups) models name (in_groups-found id name g (p ∷ groups) e h)

-- A declared group that is named like the default group is replaced by it: a model that was a member
-- of that group alone ends in no group at all.
pub default_group_replaces :
    (c : Config) (g : GroupConfig) (name : Text)
    → lookup default_group_id c.groups ≡ some g
    → contains g.members name ≡ true
    → length (groups_of c.groups name) ≡ 1
    → groups_of (add_default_group_to_config c).groups name ≡ []
unfolding add_default_group_to_config default_group
default_group_replaces c g name e h l =
    nil_of_length (groups_of (insert default_group_id (default_group c) c.groups) name) (
      groups_of-insert default_group_id name g (default_group c) c.groups e h
        (contains-sort_texts name (default_members c.groups c.models)
          ∙ default_lacks default_group_id name g c.groups c.models e h)
        l)
