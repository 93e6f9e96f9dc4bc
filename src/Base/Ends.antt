-- ===== src/Base/Ends.antt =====
-- The last elements of a list.
use Prim.Native.Nat.{ℕ, ◌+◌, ◌-◌}
use mathlib.Core.Path.{◌≡◌}
use mathlib.Core.List.{List, ◌++◌}
use native.Mathlib.Omega.{arith}
use llama_swap.Base.Lists.{
  length, drop, last_n, length-append, length-drop, drop-append_le, drop-drop,
}

-- Forgetting before or after an append leaves the same last elements.
pub last_n-append {ℓ} :
    {A : Type ℓ} (n : ℕ) (xs p : List A) → last_n n (last_n n xs ++ p) ≡ last_n n (xs ++ p)
last_n-append n xs p =
    let k = length xs - n in
    let dl : length (drop k xs) ≡ length xs - k = length-drop k xs in
    let l : length (drop k xs ++ p) - n ≡ length xs - k + length p - n =
      omega (arith, length-append (drop k xs) p) in
    let m : length (xs ++ p) - n ≡ k + (length xs - k + length p - n) =
      omega (arith, length-append xs p) in
    let e : drop k (xs ++ p) ≡ drop k xs ++ p = drop-append_le k xs p (omega arith) in
    rw (l, m, ← drop-drop (length xs - k + length p - n) k (xs ++ p), e)
