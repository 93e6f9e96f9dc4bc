-- ===== src/Event/Insertion.antt =====
-- event/event.go: the new entry that `SubscribeTo` puts into the registry.
use llama_swap.Base.{
  ℕ, zero, suc, ◌<◌, ◌≡◌, refl, sym, ◌∙◌, ap, inl, inr, List, [], ◌∷◌, ◌++◌, Option, none, some,
  Bool, true, false, if◌then◌else◌, leb, ◌==◌, arith, Bool-cases, length, take, drop, all, not,
}
use llama_swap.Event.Registry.{Registry, search_index, find_group, insert_group}
use llama_swap.Event.Search.{Ascending, group_at, find_group-group_at}

-- A list with an element put before the first key that is not smaller.
abbrev put_at {ℓ} : {A : Type ℓ} → ℕ → A → List A → List A
put_at i a xs = take i xs ++ (a ∷ drop i xs)

length-put_at {ℓ} :
    {A : Type ℓ} (i : ℕ) (a : A) (xs : List A) → length (put_at i a xs) ≡ suc (length xs)
length-put_at zero a xs = refl
length-put_at (suc i) a [] = refl
length-put_at (suc i) a (x ∷ xs) = omega (arith, length-put_at i a xs)

abbrev is_new : ℕ → List ℕ → Bool
is_new t keys = all (λ k. not (k == t)) keys

put_at-Ascending :
    (b t : ℕ) (keys : List ℕ)
    → Ascending (b ∷ keys)
    → b < t
    → is_new t keys ≡ true
    → Ascending (b ∷ put_at (search_index keys t) t keys)
unfolding search_index
put_at-Ascending b t [] a l n = (l, tt)
put_at-Ascending b t (k ∷ keys) (h, a) l n = elim (Bool-cases (leb t k)) [
  | inl e ↦ rw e (l, (ground arith, a))
  | inr e ↦ rw e (h, put_at-Ascending k t keys a (ground arith) (ground arith))
]

insert-Ascending :
    (t : ℕ) (keys : List ℕ)
    → Ascending keys
    → is_new t keys ≡ true
    → Ascending (put_at (search_index keys t) t keys)
unfolding search_index
insert-Ascending t [] a n = tt
insert-Ascending t (k ∷ keys) a n = elim (Bool-cases (leb t k)) [
  | inl e ↦ rw e ((ground arith), a)
  | inr e ↦ rw e (put_at-Ascending k t keys a (ground arith) (ground arith))
]

module _ {ℓ} {G : Type ℓ} where
  new_if_absent :
      (t : ℕ) (keys : List ℕ) (gs : List G)
      → length keys ≡ length gs
      → group_at keys gs t ≡ none
      → is_new t keys ≡ true
  new_if_absent t [] gs e h = refl
  new_if_absent t (k ∷ keys) [] e h = absurd (omega arith)
  new_if_absent t (k ∷ keys) (g ∷ gs) e h = elim (Bool-cases (k == t)) [
    | inl same ↦ absurd (none_some (sym (rw same at h)))
    | inr other ↦ rw other (new_if_absent t keys gs (omega arith) (rw other at h))
  ]
    where
      none_some : none ≡ some g → ⊥
      none_some x = cc

  group_at-put_at :
      (t u : ℕ) (g : G) (keys : List ℕ) (gs : List G)
      → length keys ≡ length gs
      → is_new t keys ≡ true
      → group_at (put_at (search_index keys t) t keys) (put_at (search_index keys t) g gs) u
        ≡ (if t == u then some g else group_at keys gs u)
  unfolding search_index
  group_at-put_at t u g [] [] e n = refl
  group_at-put_at t u g [] (h ∷ gs) e n = absurd (omega arith)
  group_at-put_at t u g (k ∷ keys) [] e n = absurd (omega arith)
  group_at-put_at t u g (k ∷ keys) (h ∷ gs) e n = elim (Bool-cases (leb t k)) [
    | inl c ↦ rw c refl
    | inr c ↦
        (let rest = group_at-put_at t u g keys gs (omega arith) (ground arith) in
          rw c (
            swap_tests k t u h (group_at keys gs u)
              (group_at (put_at (search_index keys t) t keys) (put_at (search_index keys t) g gs) u)
              c rest))
  ]
    where
      swap_tests :
          (k t u : ℕ) (h : G) (old new : Option G)
          → leb t k ≡ false
          → new ≡ (if t == u then some g else old)
          → (if k == u then some h else new)
            ≡ (if t == u then some g else (if k == u then some h else old))
      swap_tests k t u h old new c e = ground arith

  -- A subscription to an event type that has no group yet keeps the keys of the registry ascending,
  -- with a group for each; the new type is then found with its group, and every other type as before.
  pub find_group-insert_group :
      (r : Registry G) (t : ℕ) (g : G) (u : ℕ)
      → Ascending r.keys
      → length r.keys ≡ length r.grps
      → find_group r t ≡ none
      → let s = insert_group r t g in
        Ascending s.keys
        × (length s.keys ≡ length s.grps)
        × (find_group s u ≡ (if t == u then some g else find_group r u))
  unfolding insert_group
  find_group-insert_group r t g u a e absent =
      let n = new_if_absent t r.keys r.grps e (sym (find_group-group_at r t a e) ∙ absent) in
      let s = insert_group r t g in
      let i = search_index r.keys t in
      let a' : Ascending s.keys = insert-Ascending t r.keys a n in
      let e' : length s.keys ≡ length s.grps =
        length-put_at i t r.keys ∙ ap suc e ∙ sym (length-put_at i g r.grps) in
      (
        a',
        e',
        find_group-group_at s u a' e'
            ∙ group_at-put_at t u g r.keys r.grps e n
            ∙ ap (λ (o : Option G). if t == u then some g else o)
                (sym (find_group-group_at r u a e)),
      )
