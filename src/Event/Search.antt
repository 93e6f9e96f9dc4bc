-- ===== src/Event/Search.antt =====
-- event/event.go: the binary search of `findGroup` and the insertion of `SubscribeTo` against a plain
-- search.
use llama_swap.Base.{
  ℕ, zero, suc, ◌+◌, ◌-◌, ◌/◌, ◌≤◌, ◌<◌, ◌≡◌, refl, inl, inr, List, [], ◌∷◌, Option, none, some,
  true, false, if◌then◌else◌, ltb, leb, ◌==◌, arith, Bool-cases, length, get_elem?,
}
use llama_swap.Event.Registry.{Registry, key_at, search, search_index, find_group}

-- Ascending keys.
abbrev pub Ascending : List ℕ → Type 0
Ascending [] = Unit
Ascending (k ∷ []) = Unit
Ascending (k ∷ (j ∷ keys)) = (k < j) × Ascending (j ∷ keys)

pub tail_Ascending : (k : ℕ) (keys : List ℕ) → Ascending (k ∷ keys) → Ascending keys
tail_Ascending k [] a = tt
tail_Ascending k (j ∷ keys) (h, a) = a

head_least :
    (k : ℕ) (keys : List ℕ) (i : ℕ) → Ascending (k ∷ keys) → i < length keys → k < key_at keys i
head_least k [] i a h = absurd (omega arith)
head_least k (j ∷ keys) zero (l, a) h = l
head_least k (j ∷ keys) (suc i) (l, a) h = omega (arith, head_least j keys i a (omega arith), l)

index_within : (keys : List ℕ) (t : ℕ) → search_index keys t ≤ length keys
unfolding search_index
index_within [] t = omega arith
index_within (k ∷ keys) t = ground (arith, index_within keys t)

-- The keys before the index are smaller, the others are not.
below_index : (keys : List ℕ) (t i : ℕ) → i < search_index keys t → key_at keys i < t
unfolding search_index
below_index [] t i h = absurd (omega arith)
below_index (k ∷ keys) t zero h = ground arith
below_index (k ∷ keys) t (suc i) h =
    let deeper : i < search_index keys t = ground arith in below_index keys t i deeper

from_index :
    (keys : List ℕ) (t i : ℕ)
    → Ascending keys
    → search_index keys t ≤ i
    → i < length keys
    → t ≤ key_at keys i
unfolding search_index
from_index [] t i a h l = absurd (omega arith)
from_index (k ∷ keys) t zero a h l = ground arith
from_index (k ∷ keys) t (suc i) a h l =
    let m = head_least k keys i a (omega arith) in
    elim (Bool-cases (leb t k)) [
      | inl e ↦ ground (arith, m)
      | inr e ↦
          (let h' : search_index keys t ≤ i = ground arith in
            from_index keys t i (tail_Ascending k keys a) h' (omega arith))
    ]

past_smaller :
    (keys : List ℕ) (t i : ℕ)
    → Ascending keys
    → i < length keys
    → ltb (key_at keys i) t ≡ true
    → i + 1 ≤ search_index keys t
past_smaller keys t i a l h = elim (Bool-cases (ltb i (search_index keys t))) [
  | inl e ↦ ground arith
  | inr e ↦ (let m = from_index keys t i a (ground arith) l in absurd (ground (arith, m)))
]

up_to_other : (keys : List ℕ) (t i : ℕ) → ltb (key_at keys i) t ≡ false → search_index keys t ≤ i
up_to_other keys t i h = elim (Bool-cases (ltb i (search_index keys t))) [
  | inl e ↦ (let m = below_index keys t i (ground arith) in absurd (ground (arith, m)))
  | inr e ↦ ground arith
]

half : (l r : ℕ) → l < r → (l ≤ l + (r - l) / 2) × (l + (r - l) / 2 < r)
half l r h = omega arith

-- The binary search finds the index, with a round for each key between its bounds.
search-search_index :
    (fuel : ℕ) (keys : List ℕ) (t left right : ℕ)
    → Ascending keys
    → left ≤ search_index keys t
    → search_index keys t ≤ right
    → right ≤ length keys
    → right - left ≤ fuel
    → search fuel keys t left right ≡ search_index keys t
unfolding search
search-search_index zero keys t left right a h k l f = omega arith
search-search_index (suc fuel) keys t left right a h k l f = elim (Bool-cases (ltb left right)) [
  | inr e ↦ rw e (ground arith)
  | inl e ↦
      let mid = left + (right - left) / 2 in
      let (m, n) : (left ≤ mid) × (mid < right) = half left right (ground arith) in
      elim (Bool-cases (ltb (key_at keys mid) t)) [
        | inl up ↦
            rw (e, up)
              (search-search_index fuel keys t (mid + 1) right a
                (past_smaller keys t mid a (omega arith) up) k l (omega arith))
        | inr down ↦
            rw (e, down)
              (search-search_index fuel keys t left mid a h (up_to_other keys t mid down)
                (omega arith) (omega arith))
      ]
]

module _ {ℓ} {G : Type ℓ} where
  -- A plain search for an event type.
  abbrev pub group_at : List ℕ → List G → ℕ → Option G
  group_at [] gs t = none
  group_at (k ∷ keys) [] t = none
  group_at (k ∷ keys) (g ∷ gs) t = let rest = group_at keys gs t in if k == t then some g else rest

  -- What `findGroup` reads at the index.
  abbrev read_at : List ℕ → List G → ℕ → ℕ → Option G
  read_at keys gs t i =
      if ltb i (length keys) then (if key_at keys i == t then get_elem? gs i else none) else none

  not_among :
      (k t : ℕ) (keys : List ℕ) (gs : List G)
      → Ascending (k ∷ keys)
      → t ≤ k
      → group_at keys gs t ≡ none
  not_among k t [] gs a h = refl
  not_among k t (j ∷ keys) [] a h = refl
  not_among k t (j ∷ keys) (g ∷ gs) (l, a) h =
      let rest = not_among j t keys gs a (omega arith) in ground (arith, rest)

  read_at-group_at :
      (keys : List ℕ) (gs : List G) (t : ℕ)
      → Ascending keys
      → length keys ≡ length gs
      → read_at keys gs t (search_index keys t) ≡ group_at keys gs t
  unfolding search_index
  read_at-group_at [] gs t a e = refl
  read_at-group_at (k ∷ keys) [] t a e = absurd (omega arith)
  read_at-group_at (k ∷ keys) (g ∷ gs) t a e =
      let rest = read_at-group_at keys gs t (tail_Ascending k keys a) (omega arith) in
      elim (Bool-cases (leb t k)) [
        | inl h ↦ (let n = not_among k t keys gs a (ground arith) in ground (arith, n))
        | inr h ↦ ground (arith, rest)
      ]

  -- On a registry whose keys ascend, the binary search, with as many rounds as there are keys,
  -- gives the group that a plain search gives.
  pub find_group-group_at :
      (r : Registry G) (t : ℕ)
      → Ascending r.keys
      → length r.keys ≡ length r.grps
      → find_group r t ≡ group_at r.keys r.grps t
  unfolding find_group
  find_group-group_at r t a e =
      let found =
        search-search_index (length r.keys) r.keys t 0 (length r.keys) a (omega arith)
          (index_within r.keys t) (omega arith) (omega arith) in
      rw found (read_at-group_at r.keys r.grps t a e)
