-- ===== src/Prelude/Sweep.antt =====
-- Checks of a small range by evaluation.
use Prim.Native.Nat.{ℕ, zero, suc, ◌<◌}
use mathlib.Core.Path.{◌≡◌, ap, sym, ◌∙◌}
use mathlib.Core.Bool.{Bool, true, ◌&&◌}
use mathlib.Core.Logic.{inl, inr}
use native.Mathlib.Omega.{arith}
use ares_os.Prelude.Tests.{◌==◌, Bool-cases}

-- A test of every number below `n`.
unfoldable pub sweep : ℕ → (ℕ → Bool) → Bool
sweep zero test = true
sweep (suc n) test = test n && sweep n test

pub sweep-holds : (n : ℕ) (test : ℕ → Bool) → sweep n test ≡ true → (c : ℕ) → c < n → test c ≡ true
unfolding sweep
sweep-holds zero test e c h = elim h [ ]
sweep-holds (suc n) test e c h = elim (Bool-cases (c == n)) [
  | inl same ↦ let s : n ≡ c = ground arith in ap test (sym s) ∙ ground arith
  | inr other ↦ sweep-holds n test (ground arith) c (ground arith)
]
