-- ===== src/Benchy/Pruned.antt =====
-- proxy/benchy.go: what `pruneBenchyJobsLocked` removes and keeps.
use llama_swap.Base.{
  ℕ, ◌≡◌, refl, ◌∙◌, ◌⊎◌, inl, inr, List, [], ◌∷◌, Option, none, some, Bool, true, false,
  if◌then◌else◌, ltb, leb, length, arith, Bool-cases, ◌||◌,
}
use llama_swap.Base.Text.{Text, text_eq, text_eq_iff, contains}
use llama_swap.Base.Dict.{Dict, lookup, delete}
use llama_swap.Benchy.Jobs.{Job, without, max_jobs, end_of, remove_oldest}

-- Whether one of some removable jobs has the id.
abbrev pub listed : Text → List (ℕ × Text) → Bool
listed k [] = false
listed k ((t, id) ∷ fs) = text_eq id k || listed k fs

pub lookup-delete {ℓ} :
    {V : Type ℓ} (id k : Text) (m : Dict V)
    → lookup k (delete id m) ≡ (if text_eq id k then none else lookup k m)
unfolding lookup delete
lookup-delete id k [] = ground arith
lookup-delete id k ((j, v) ∷ m) =
    ground (arith, text_eq_iff j id, text_eq_iff j k, text_eq_iff id k, lookup-delete id k m)

pub contains-without :
    (id k : Text) (xs : List Text) → contains xs k ≡ false → contains (without id xs) k ≡ false
unfolding contains
contains-without id k [] h = h
contains-without id k (x ∷ xs) h = ground (arith, contains-without id k xs)

pub contains-without_self : (id : Text) (xs : List Text) → contains (without id xs) id ≡ false
unfolding contains
contains-without_self id [] = refl
contains-without_self id (x ∷ xs) = ground (arith, contains-without_self id xs)

-- A job of the map that has not ended, so that no list of ended jobs names it.
abbrev pub IsUnfinished : Option Job → Type 0
IsUnfinished none = Unit
IsUnfinished (some j) = end_of j ≡ none

-- What the loop keeps of a map: each entry is as it was or gone, and it is gone only if it was
-- listed; afterwards there are few enough, or no listed job is left.
pub record Kept (before after : Dict Job) (fs : List (ℕ × Text)) : Type 0 where
  pub entry :
      (k : Text)
      → (lookup k after ≡ lookup k before) ⊎ ((lookup k after ≡ none) × (listed k fs ≡ true))
  pub enough :
      (leb (length after) max_jobs ≡ true)
      ⊎ ((k : Text) → listed k fs ≡ true → lookup k after ≡ none)

entry_after :
    (t : ℕ) (id k : Text) (fs : List (ℕ × Text)) (before after : Dict Job)
    → (lookup k after ≡ lookup k (delete id before))
      ⊎ ((lookup k after ≡ none) × (listed k fs ≡ true))
    → (lookup k after ≡ lookup k before)
      ⊎ ((lookup k after ≡ none) × (listed k ((t, id) ∷ fs) ≡ true))
entry_after t id k fs before after (inr (e, l)) = inr (e, ground arith)
entry_after t id k fs before after (inl e) = elim (Bool-cases (text_eq id k)) [
  | inl same ↦ inr (e ∙ rw (lookup-delete id k before, same) refl, rw same refl)
  | inr other ↦ inl (e ∙ rw (lookup-delete id k before, other) refl)
]

enough_before :
    (t : ℕ) (id : Text) (fs : List (ℕ × Text)) (before after : Dict Job)
    → Kept (delete id before) after fs
    → ((k : Text) → listed k fs ≡ true → lookup k after ≡ none)
    → (k : Text) → listed k ((t, id) ∷ fs) ≡ true
    → lookup k after ≡ none
enough_before t id fs before after kept h k l = elim (Bool-cases (text_eq id k)) [
  | inl same ↦ elim (kept.entry k) [
    | inl e ↦ e ∙ rw (lookup-delete id k before, same) refl
    | inr (e, _) ↦ e
  ]
  | inr other ↦ h k (rw other at l)
]

pub remove_oldest-Kept :
    (fs : List (ℕ × Text)) (jobs : Dict Job) (cancels : List Text)
    → Kept jobs (remove_oldest fs jobs cancels).0 fs
unfolding remove_oldest
remove_oldest-Kept [] jobs cancels = record { entry = λ k. inl refl; enough = inr (λ k l. cc) }
remove_oldest-Kept ((t, id) ∷ fs) jobs cancels = elim (Bool-cases (ltb max_jobs (length jobs))) [
  | inl over ↦
      let ih = remove_oldest-Kept fs (delete id jobs) (without id cancels) in
      let after = (remove_oldest fs (delete id jobs) (without id cancels)).0 in
      rw over (record {
        entry = λ k. entry_after t id k fs jobs after (ih.entry k);
        enough = elim ih.enough [
          | inl few ↦ inl few
          | inr none_left ↦ inr (enough_before t id fs jobs after ih none_left)
        ];
      })
  | inr few ↦ rw few (record { entry = λ k. inl refl; enough = inl (ground arith) })
]

abbrev pub IsEnded : Option Job → Type 0
IsEnded none = ⊥
IsEnded (some j) = (t : ℕ) × (end_of j ≡ some t)

-- What pruning does to the map of the jobs.
pub record PruneEnd (before after : Dict Job) : Type 0 where
  pub entry :
      (k : Text)
      → (lookup k after ≡ lookup k before) ⊎ ((lookup k after ≡ none) × IsEnded (lookup k before))
  pub enough : (leb (length after) max_jobs ≡ true) ⊎ ((k : Text) → IsEnded (lookup k after) → ⊥)
