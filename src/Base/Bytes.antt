-- ===== src/Base/Bytes.antt =====
-- Functions of Go's `bytes` and `strings` on ASCII texts that few components call.
use Prim.Native.Nat.{ℕ, suc, ◌+◌}
use mathlib.Core.Bool.{Bool, true, false, ◌&&◌}
use mathlib.Core.Option.{Option, none, some}
use mathlib.Core.List.{[], ◌∷◌}
use llama_swap.Base.Tests.{◌==◌, if◌then◌else◌, leb}
use llama_swap.Base.Text.{Text}

-- `strings.ToLower`.
abbrev pub lower : ℕ → ℕ
lower c = if leb 65 c && leb c 90 then c + 32 else c

unfoldable pub to_lower : Text → Text
to_lower [] = []
to_lower (c ∷ s) = lower c ∷ to_lower s

-- `bytes.LastIndexByte(s, b)`; `none` is -1.
abbrev pub later_index : Bool → Option ℕ → Option ℕ
later_index here (some i) = some (suc i)
later_index true none = some 0
later_index false none = none

unfoldable pub last_index_byte : ℕ → Text → Option ℕ
last_index_byte b [] = none
last_index_byte b (c ∷ s) = later_index (c == b) (last_index_byte b s)
