-- ===== src/Base/Decimal.antt =====
-- `%d` and `%v` of a number that is not negative. A number has fewer digits than its value plus one,
-- which is the fuel.
use Prim.Native.Nat.{ℕ, zero, suc, ◌+◌, ◌/◌, ◌%◌}
use mathlib.Core.List.{[], ◌∷◌, ◌++◌}
use llama_swap.Base.Tests.{if◌then◌else◌, ltb}
use llama_swap.Base.Text.{Text}

unfoldable pub digits : ℕ → ℕ → Text
digits zero n = []
digits (suc fuel) n =
    let rest = digits fuel (n / 10) in
    if ltb n 10 then (b'0' + n) ∷ [] else rest ++ ((b'0' + n % 10) ∷ [])

unfoldable pub decimal : ℕ → Text
unfolding digits
decimal n = digits (suc n) n
