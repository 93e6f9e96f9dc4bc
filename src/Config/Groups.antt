-- ===== src/Config/Groups.antt =====
-- proxy/config/config.go: `AddDefaultGroupToConfig` and the validation of the groups' members.
use llama_swap.Base.{List, [], ◌∷◌, Option, none, some, Bool, true, false, if◌then◌else◌, ◌||◌}
use llama_swap.Base.Text.{Text, contains}
use llama_swap.Base.Dict.{Dict, lookup, insert, keys}
use llama_swap.Base.Sort.{sort_texts}
use llama_swap.Config.Types.{
  GroupConfig, ModelConfig, Config, default_group_id, duplicate_member, member_of_two_groups,
  Result, ok, err, ◌>>=◌,
}

-- The search through the existing groups.
unfoldable pub in_groups : Dict GroupConfig → Text → Bool
in_groups [] name = false
in_groups ((id, g) ∷ groups) name = contains g.members name || in_groups groups name

-- The models that no group has.
unfoldable pub ungrouped : Dict GroupConfig → Dict ModelConfig → List Text
ungrouped groups [] = []
ungrouped groups ((name, m) ∷ models) =
    let rest = ungrouped groups models in if in_groups groups name then rest else name ∷ rest

-- Without groups every model goes into the default group.
abbrev pub default_members : Dict GroupConfig → Dict ModelConfig → List Text
default_members [] models = keys models
default_members (g ∷ groups) models = ungrouped (g ∷ groups) models

unfoldable pub default_group : Config → GroupConfig
default_group c = record {
  swap = true;
  exclusive = true;
  persistent = false;
  members = sort_texts (default_members c.groups c.models);
}

unfoldable pub add_default_group_to_config : Config → Config
add_default_group_to_config c = record c {
  groups = insert default_group_id (default_group c) c.groups;
}

-- One member of a group: `used` is `memberUsage[member]`.
abbrev pub use_member : Text → Text → Dict Text → Option Text → Result (Dict Text)
use_member id member usage (some other) = err (member_of_two_groups member other id)
use_member id member usage none = ok (insert member id usage)

unfoldable pub check_member : Text → List Text → Dict Text → Text → Result (Dict Text)
check_member id prev usage member =
    if contains prev member
    then err (duplicate_member member id)
    else use_member id member usage (lookup member usage)

-- The members of one group; `prev` is `prevSet`.
unfoldable pub check_members : Text → List Text → Dict Text → List Text → Result (Dict Text)
check_members id prev usage [] = ok usage
check_members id prev usage (member ∷ members) =
    check_member id prev usage member >>= λ more. check_members id (member ∷ prev) more members

unfoldable pub validate_groups : Dict GroupConfig → Dict Text → Result (Dict Text)
validate_groups [] usage = ok usage
validate_groups ((id, g) ∷ groups) usage =
    check_members id [] usage g.members >>= λ more. validate_groups groups more

-- The groups that have a member.
unfoldable pub groups_of : Dict GroupConfig → Text → List Text
groups_of [] name = []
groups_of ((id, g) ∷ groups) name =
    let rest = groups_of groups name in if contains g.members name then id ∷ rest else rest
