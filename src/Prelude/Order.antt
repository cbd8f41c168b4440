-- ===== src/Prelude/Order.antt =====
-- `<` on the native numbers is well founded. (The library proves it of the unary numbers.)
use mathlib.Core.WellFounded.{Acc, WellFounded}
use refresh.Prelude.{ℕ, zero, suc, ◌<◌, arith}

Acc-below : (k n : ℕ) → n < k → Acc ◌<◌ n
Acc-below zero n h = elim h [ ]
Acc-below (suc k) n h = Acc.intro n (λ m hm. Acc-below k m (omega arith))

unfoldable pub lt_wf : WellFounded ◌<◌
unfolding Acc-below
lt_wf = record { apply = λ n. Acc-below (suc n) n (omega arith) }
