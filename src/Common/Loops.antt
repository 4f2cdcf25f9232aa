-- ===== src/Common/Loops.antt =====
-- Loops that end because a number goes down.
use Prim.Native.Nat.{ℕ, zero, suc, ◌<◌}
use mathlib.Core.WellFounded.{Acc, WellFounded}
use native.Mathlib.Omega.{arith}

accessible : (bound n : ℕ) → n < bound → Acc ◌<◌ n
accessible zero n h = absurd (omega arith)
accessible (suc bound) n h = Acc.intro n (λ m k. accessible bound m (omega arith))

unfoldable pub lt_wf : WellFounded ◌<◌
unfolding accessible
lt_wf = record { apply = λ n. accessible (suc n) n (omega arith) }
