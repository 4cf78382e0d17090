-- ===== src/Compose/Fuel/Depth.antt =====
-- src/compose.ts, `compose` and `covers`: how deep their calls of one another nest.
use sequence.Prelude.{ℕ, suc, ◌+◌, ◌≤◌, Bool, true, false, ◌≡◌}
use Prim.Native.Nat.{◌*◌}
use sequence.Lang.{Ty}
use sequence.Compose.Lattice.{Calls}
use sequence.Compose.Fuel.{type_size}
use sequence.Compose.Fuel.Step.{swaps}

-- one level for each step down, where `covers` may call `compose` on the same types and `compose` may swap
-- them
abbrev rank : Ty → Ty → ℕ
rank a b = 3 * (type_size a + type_size b)

abbrev one_if : Bool → ℕ
one_if true = 1
one_if false = 0

abbrev swap_rank : Ty → Ty → ℕ
swap_rank a b = one_if (swaps a b)

-- Two depths give the same calls up to a bound.
abbrev Agree : Calls → Calls → ℕ → Type 0
Agree c d n =
    ((a b : Ty) → suc (rank a b + swap_rank a b) ≤ n → c.compose a b ≡ d.compose a b)
    × ((a b : Ty) → 3 + rank a b ≤ n → c.covers a b ≡ d.covers a b)
