-- ===== src/Event/Registry.antt =====
-- event/event.go: `registry`, `findGroup` and the insertion in `SubscribeTo`.
use llama_swap.Base.{
  ℕ, zero, suc, ◌+◌, ◌-◌, ◌/◌, List, [], ◌∷◌, ◌++◌, Option, none, some, if◌then◌else◌, ltb, leb,
  ◌==◌, length, get_elem?, take, drop,
}

-- The registry: the types of the events in ascending order, and the group of each, at the same index.
pub record Registry {ℓ} (G : Type ℓ) : Type ℓ where
  pub keys : List ℕ
  pub grps : List G

-- `keys[i]` for an index within bounds.
abbrev pub or_zero : Option ℕ → ℕ
or_zero none = 0
or_zero (some n) = n

abbrev pub key_at : List ℕ → ℕ → ℕ
key_at keys i = or_zero (get_elem? keys i)

-- The binary search; the fuel bounds the rounds.
unfoldable pub search : ℕ → List ℕ → ℕ → ℕ → ℕ → ℕ
search zero keys event_type left right = left
search (suc fuel) keys event_type left right =
    let mid = left + (right - left) / 2 in
    let upper = search fuel keys event_type (mid + 1) right in
    let lower = search fuel keys event_type left mid in
    if ltb left right then (if ltb (key_at keys mid) event_type then upper else lower) else left

-- `sort.Search` in `SubscribeTo`: the first index whose key is not smaller.
unfoldable pub search_index : List ℕ → ℕ → ℕ
search_index [] event_type = 0
search_index (k ∷ keys) event_type =
    let rest = search_index keys event_type in if leb event_type k then 0 else suc rest

module _ {ℓ} {G : Type ℓ} where
  -- `findGroup`: as many rounds as there are keys are enough.
  unfoldable pub find_group : Registry G → ℕ → Option G
  find_group r event_type =
      let left = search (length r.keys) r.keys event_type 0 (length r.keys) in
      if ltb left (length r.keys)
      then (if key_at r.keys left == event_type then get_elem? r.grps left else none)
      else none

  -- `SubscribeTo`: the new entry in its place.
  unfoldable pub insert_group : Registry G → ℕ → G → Registry G
  insert_group r event_type grp =
      let idx = search_index r.keys event_type in
      record {
        keys = take idx r.keys ++ (event_type ∷ drop idx r.keys);
        grps = take idx r.grps ++ (grp ∷ drop idx r.grps);
      }
