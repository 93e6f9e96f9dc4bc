-- ===== src/Base/Sort.antt =====
-- `sort.Strings` and `slices.Sort`: texts in the order of their bytes.
use mathlib.Core.Path.{◌≡◌, refl, ◌∙◌}
use mathlib.Core.Logic.{◌⊎◌, inl, inr}
use mathlib.Core.Bool.{Bool, true, false, ◌&&◌, ◌||◌}
use mathlib.Core.List.{List, [], ◌∷◌, ◌++◌, Perm}
use mathlib.Core.List.Perm
use native.Mathlib.Omega.{arith}
use llama_swap.Base.Tests.{◌==◌, if◌then◌else◌, ltb}
use llama_swap.Base.Text.{Text, text_eq, text_eq_iff, contains}

-- `a <= b` on strings.
unfoldable pub text_le : Text → Text → Bool
text_le [] t = true
text_le (c ∷ s) [] = false
text_le (c ∷ s) (d ∷ t) = ltb c d || ((c == d) && text_le s t)

pub text_le_total : (s t : Text) → (text_le s t ≡ true) ⊎ (text_le t s ≡ true)
unfolding text_le
text_le_total [] t = inl refl
text_le_total (c ∷ s) [] = inr refl
text_le_total (c ∷ s) (d ∷ t) = ground (arith, text_le_total s t)

pub text_le_trans : (s t u : Text) → text_le s t ≡ true → text_le t u ≡ true → text_le s u ≡ true
unfolding text_le
text_le_trans [] t u h k = refl
text_le_trans (c ∷ s) [] u h k = cc
text_le_trans (c ∷ s) (d ∷ t) [] h k = cc
text_le_trans (c ∷ s) (d ∷ t) (e ∷ u) h k = ground (arith, text_le_trans s t u)

unfoldable pub insert_sorted : Text → List Text → List Text
insert_sorted t [] = t ∷ []
insert_sorted t (u ∷ us) =
    let rest = insert_sorted t us in if text_le t u then t ∷ (u ∷ us) else u ∷ rest

unfoldable pub sort_texts : List Text → List Text
sort_texts [] = []
sort_texts (t ∷ ts) = insert_sorted t (sort_texts ts)

-- Each text is before the next one, or equal to it.
abbrev pub IsSortedFrom : Text → List Text → Type 0
IsSortedFrom t [] = Unit {0}
IsSortedFrom t (u ∷ us) = (text_le t u ≡ true) × IsSortedFrom u us

abbrev pub IsSorted : List Text → Type 0
IsSorted [] = Unit {0}
IsSorted (t ∷ ts) = IsSortedFrom t ts

insert_sorted-IsSortedFrom :
    (s t : Text) (us : List Text)
    → text_le s t ≡ true
    → IsSortedFrom s us
    → IsSortedFrom s (insert_sorted t us)
unfolding insert_sorted
insert_sorted-IsSortedFrom s t [] h k = (h, tt)
insert_sorted-IsSortedFrom s t (u ∷ us) h (k, r) =
    ground (arith, text_le_total t u, insert_sorted-IsSortedFrom u t us)

insert_sorted-IsSorted : (t : Text) (us : List Text) → IsSorted us → IsSorted (insert_sorted t us)
unfolding insert_sorted
insert_sorted-IsSorted t [] h = tt
insert_sorted-IsSorted t (u ∷ us) h =
    ground (arith, text_le_total t u, insert_sorted-IsSortedFrom u t us)

pub sort_texts-IsSorted : (ts : List Text) → IsSorted (sort_texts ts)
unfolding sort_texts
sort_texts-IsSorted [] = tt
sort_texts-IsSorted (t ∷ ts) = insert_sorted-IsSorted t (sort_texts ts) (sort_texts-IsSorted ts)

insert_sorted-perm : (t : Text) (us : List Text) → Perm (insert_sorted t us) (t ∷ us)
unfolding insert_sorted
insert_sorted-perm t [] = Perm.refl (t ∷ [])
insert_sorted-perm t (u ∷ us) =
    let swapped = Perm.trans (Perm.cons u (insert_sorted-perm t us)) (Perm.swap t u us) in
    ground (arith, swapped, Perm.refl (t ∷ (u ∷ us)))

pub sort_texts-perm : (ts : List Text) → Perm (sort_texts ts) ts
unfolding sort_texts
sort_texts-perm [] = Perm.nil
sort_texts-perm (t ∷ ts) =
    Perm.trans (insert_sorted-perm t (sort_texts ts)) (Perm.cons t (sort_texts-perm ts))

contains-insert_sorted :
    (x t : Text) (us : List Text) → contains (insert_sorted t us) x ≡ (text_eq t x || contains us x)
unfolding insert_sorted contains
contains-insert_sorted x t [] = refl
contains-insert_sorted x t (u ∷ us) = ground (arith, contains-insert_sorted x t us)

-- Sorting keeps what is in the list.
pub contains-sort_texts : (x : Text) (ts : List Text) → contains (sort_texts ts) x ≡ contains ts x
unfolding sort_texts contains
contains-sort_texts x [] = refl
contains-sort_texts x (t ∷ ts) =
    ground (arith, contains-insert_sorted x t (sort_texts ts), contains-sort_texts x ts)

-- No text stands twice.
abbrev pub Distinct : List Text → Type 0
Distinct [] = Unit {0}
Distinct (t ∷ ts) = (contains ts t ≡ false) × Distinct ts

Distinct-insert_sorted :
    (t : Text) (us : List Text)
    → contains us t ≡ false
    → Distinct us
    → Distinct (insert_sorted t us)
unfolding insert_sorted contains
Distinct-insert_sorted t [] h d = (refl, tt)
Distinct-insert_sorted t (u ∷ us) h d = ground (
  arith,
  text_eq_iff u t,
  text_eq_iff t u,
  contains-insert_sorted u t us,
  Distinct-insert_sorted t us,
)

pub Distinct-sort_texts : (ts : List Text) → Distinct ts → Distinct (sort_texts ts)
unfolding sort_texts
Distinct-sort_texts [] d = tt
Distinct-sort_texts (t ∷ ts) d =
    Distinct-insert_sorted t (sort_texts ts) (contains-sort_texts t ts ∙ d.0)
      (Distinct-sort_texts ts d.1)

pub contains-append :
    (ts us : List Text) (x : Text) → contains (ts ++ us) x ≡ (contains ts x || contains us x)
unfolding contains
contains-append [] us x = refl
contains-append (t ∷ ts) us x = ground (arith, contains-append ts us x)

pub Distinct-append_one :
    (ts : List Text) (u : Text) → contains ts u ≡ false → Distinct ts → Distinct (ts ++ (u ∷ []))
unfolding contains
Distinct-append_one [] u h d = (refl, tt)
Distinct-append_one (t ∷ ts) u h d = ground (
  arith,
  text_eq_iff t u,
  text_eq_iff u t,
  contains-append ts (u ∷ []) t,
  Distinct-append_one ts u,
)
