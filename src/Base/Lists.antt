-- ===== src/Base/Lists.antt =====
-- Lists measured and indexed by native numbers, under the library's names, and Go's `copy`.
use Prim.Native.Nat.{ℕ, zero, suc, ◌+◌, ◌-◌, ◌≤◌, min}
use mathlib.Core.Path.{◌≡◌, refl, sym, ap, ◌∙◌}
use mathlib.Core.List.{List, [], ◌∷◌, ◌++◌}
use mathlib.Core.Option.{Option, none, some}
use mathlib.Core.Bool.{Bool, true, false}
use native.Mathlib.Omega.{arith}
use llama_swap.Base.Tests.{if◌then◌else◌}

module _ {ℓ} {A : Type ℓ} where
  abbrev pub length : List A → ℕ
  length [] = 0
  length (x ∷ xs) = suc (length xs)

  abbrev pub get_elem? : List A → ℕ → Option A
  get_elem? [] i = none
  get_elem? (x ∷ xs) zero = some x
  get_elem? (x ∷ xs) (suc i) = get_elem? xs i

  abbrev pub take : ℕ → List A → List A
  take zero xs = []
  take (suc n) [] = []
  take (suc n) (x ∷ xs) = x ∷ take n xs

  abbrev pub drop : ℕ → List A → List A
  drop zero xs = xs
  drop (suc n) [] = []
  drop (suc n) (x ∷ xs) = drop n xs

  abbrev pub replicate : ℕ → A → List A
  replicate zero a = []
  replicate (suc n) a = a ∷ replicate n a

  -- `copy(dst[off:], src)`: the bytes that fit are written, the others are not.
  abbrev pub copy_at : List A → ℕ → List A → List A
  copy_at [] off src = []
  copy_at (x ∷ xs) zero [] = x ∷ xs
  copy_at (x ∷ xs) zero (s ∷ src) = s ∷ copy_at xs zero src
  copy_at (x ∷ xs) (suc off) src = x ∷ copy_at xs off src

  -- `src[lo:hi]`.
  abbrev pub slice : List A → ℕ → ℕ → List A
  slice xs lo hi = take (hi - lo) (drop lo xs)

  -- `all` and `any`, the loops that look for a counterexample or an example.
  abbrev pub all : (A → Bool) → List A → Bool
  all p [] = true
  all p (x ∷ xs) = if p x then all p xs else false

  abbrev pub any : (A → Bool) → List A → Bool
  any p [] = false
  any p (x ∷ xs) = if p x then true else any p xs

  abbrev pub filterb : (A → Bool) → List A → List A
  filterb p [] = []
  filterb p (x ∷ xs) = let rest = filterb p xs in if p x then x ∷ rest else rest

  abbrev pub concat : List (List A) → List A
  concat [] = []
  concat (xs ∷ xss) = xs ++ concat xss

  -- The last `n` elements.
  abbrev pub last_n : ℕ → List A → List A
  last_n n xs = drop (length xs - n) xs

module _ {ℓ} {A : Type ℓ} where
  pub length-append : (xs ys : List A) → length (xs ++ ys) ≡ length xs + length ys
  length-append [] ys = omega arith
  length-append (x ∷ xs) ys = omega (arith, length-append xs ys)

  pub length-take : (n : ℕ) (xs : List A) → length (take n xs) ≡ min n (length xs)
  length-take zero xs = omega arith
  length-take (suc n) [] = omega arith
  length-take (suc n) (x ∷ xs) = omega (arith, length-take n xs)

  pub length-drop : (n : ℕ) (xs : List A) → length (drop n xs) ≡ length xs - n
  length-drop zero xs = omega arith
  length-drop (suc n) [] = omega arith
  length-drop (suc n) (x ∷ xs) = omega (arith, length-drop n xs)

  pub length-replicate : (n : ℕ) (a : A) → length (replicate n a) ≡ n
  length-replicate zero a = refl
  length-replicate (suc n) a = ap suc (length-replicate n a)

  pub length-copy_at :
      (xs : List A) (off : ℕ) (src : List A) → length (copy_at xs off src) ≡ length xs
  length-copy_at [] off src = refl
  length-copy_at (x ∷ xs) zero [] = refl
  length-copy_at (x ∷ xs) zero (s ∷ src) = ap suc (length-copy_at xs zero src)
  length-copy_at (x ∷ xs) (suc off) src = ap suc (length-copy_at xs off src)

  pub take-append-drop : (n : ℕ) (xs : List A) → take n xs ++ drop n xs ≡ xs
  take-append-drop zero xs = refl
  take-append-drop (suc n) [] = refl
  take-append-drop (suc n) (x ∷ xs) = rw (take-append-drop n xs)

  pub take_all : (n : ℕ) (xs : List A) → length xs ≤ n → take n xs ≡ xs
  take_all zero [] h = refl
  take_all zero (x ∷ xs) h = absurd (omega arith)
  take_all (suc n) [] h = refl
  take_all (suc n) (x ∷ xs) h = ap (◌∷◌ x) (take_all n xs (omega arith))

  pub drop_all : (n : ℕ) (xs : List A) → length xs ≤ n → drop n xs ≡ []
  drop_all zero [] h = refl
  drop_all zero (x ∷ xs) h = absurd (omega arith)
  drop_all (suc n) [] h = refl
  drop_all (suc n) (x ∷ xs) h = drop_all n xs (omega arith)

  -- Dropping what comes before an appended part.
  pub drop-append_left : (n : ℕ) (xs ys : List A) → length xs ≡ n → drop n (xs ++ ys) ≡ ys
  drop-append_left zero [] ys e = refl
  drop-append_left zero (x ∷ xs) ys e = absurd (omega arith)
  drop-append_left (suc n) [] ys e = absurd (omega arith)
  drop-append_left (suc n) (x ∷ xs) ys e = drop-append_left n xs ys (omega arith)

  pub take-append_left : (n : ℕ) (xs ys : List A) → length xs ≡ n → take n (xs ++ ys) ≡ xs
  take-append_left zero [] ys e = refl
  take-append_left zero (x ∷ xs) ys e = absurd (omega arith)
  take-append_left (suc n) [] ys e = absurd (omega arith)
  take-append_left (suc n) (x ∷ xs) ys e = ap (◌∷◌ x) (take-append_left n xs ys (omega arith))

  pub drop-append_le :
      (n : ℕ) (xs ys : List A) → n ≤ length xs → drop n (xs ++ ys) ≡ drop n xs ++ ys
  drop-append_le zero xs ys h = refl
  drop-append_le (suc n) [] ys h = absurd (omega arith)
  drop-append_le (suc n) (x ∷ xs) ys h = drop-append_le n xs ys (omega arith)

  pub drop-drop : (m n : ℕ) (xs : List A) → drop m (drop n xs) ≡ drop (n + m) xs
  drop-drop m zero xs = ap (λ k. drop k xs) (omega arith)
  drop-drop zero (suc n) [] = sym (drop_all (suc n + 0) [] (omega arith))
  drop-drop (suc m) (suc n) [] = sym (drop_all (suc n + suc m) [] (omega arith))
  drop-drop m (suc n) (x ∷ xs) =
      let e : suc (n + m) ≡ suc n + m = omega arith in
      drop-drop m n xs ∙ ap (λ k. drop k (x ∷ xs)) e

  -- A copy of `src` over a middle part of the same length.
  pub copy_at_middle :
      (ls bs cs src : List A)
      → length bs ≡ length src
      → copy_at (ls ++ (bs ++ cs)) (length ls) src ≡ ls ++ (src ++ cs)
  copy_at_middle [] [] [] [] e = refl
  copy_at_middle [] [] (c ∷ cs) [] e = refl
  copy_at_middle [] [] cs (s ∷ src) e = absurd (omega arith)
  copy_at_middle [] (b ∷ bs) cs [] e = absurd (omega arith)
  copy_at_middle [] (b ∷ bs) cs (s ∷ src) e = ap (◌∷◌ s) (copy_at_middle [] bs cs src (omega arith))
  copy_at_middle (a ∷ ls) bs cs src e = ap (◌∷◌ a) (copy_at_middle ls bs cs src e)

  -- A copy over a list of the same length is the source.
  pub copy_at_whole : (xs src : List A) → length xs ≡ length src → copy_at xs 0 src ≡ src
  copy_at_whole [] [] e = refl
  copy_at_whole [] (s ∷ src) e = absurd (omega arith)
  copy_at_whole (x ∷ xs) [] e = absurd (omega arith)
  copy_at_whole (x ∷ xs) (s ∷ src) e = ap (◌∷◌ s) (copy_at_whole xs src (omega arith))

  -- Two copies that fill a list one behind the other.
  pub copy_at_both :
      (xs us vs : List A)
      → length xs ≡ length us + length vs
      → copy_at (copy_at xs 0 us) (length us) vs ≡ us ++ vs
  copy_at_both [] [] [] e = refl
  copy_at_both [] [] (v ∷ vs) e = absurd (omega arith)
  copy_at_both [] (u ∷ us) vs e = absurd (omega arith)
  copy_at_both (x ∷ xs) [] vs e = copy_at_whole (x ∷ xs) vs (omega arith)
  copy_at_both (x ∷ xs) (u ∷ us) vs e = ap (◌∷◌ u) (copy_at_both xs us vs (omega arith))

  pub drop-take : (a b : ℕ) (xs : List A) → drop a (take b xs) ≡ take (b - a) (drop a xs)
  drop-take zero b xs = let e : b ≡ b - 0 = omega arith in ap (λ k. take k xs) e
  drop-take (suc a) zero xs =
      let e : 0 ≡ 0 - suc a = omega arith in ap (λ k. take k (drop (suc a) xs)) e
  drop-take (suc a) (suc b) [] = sym (take_all (suc b - suc a) [] (omega arith))
  drop-take (suc a) (suc b) (x ∷ xs) =
      let e : b - a ≡ suc b - suc a = omega arith in
      drop-take a b xs ∙ ap (λ k. take k (drop a xs)) e
