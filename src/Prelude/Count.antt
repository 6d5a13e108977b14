-- ===== src/Prelude/Count.antt =====
-- How many numbers below a bound pass a test.
use ares_os.Prelude.Tests.{◌==◌, if◌then◌else◌, Bool-cases}
use Prim.Native.Nat.{ℕ, zero, suc, ◌+◌, ◌≤◌, ◌<◌}
use mathlib.Core.Path.{◌≡◌, refl}
use mathlib.Core.Logic.{inl, inr}
use mathlib.Core.Bool.{Bool, true, false, not, ◌&&◌, ◌||◌}
use native.Mathlib.Omega.{arith}

unfoldable pub count : (ℕ → Bool) → ℕ → ℕ
count f zero = 0
count f (suc k) = (if f k then 1 else 0) + count f k

pub count-le : (f : ℕ → Bool) (k : ℕ) → count f k ≤ k
unfolding count
count-le f zero = omega arith
count-le f (suc k) = ground (arith, count-le f k)

pub count-congr : (f g : ℕ → Bool) (k : ℕ) → ((j : ℕ) → j < k → f j ≡ g j) → count f k ≡ count g k
unfolding count
count-congr f g zero h = refl
count-congr f g (suc k) h =
    ground (arith, h k (omega arith), count-congr f g k (λ j l. h j (omega arith)))

-- One more number passes.
pub count-add :
    (f g : ℕ → Bool) (i k : ℕ)
    → ((j : ℕ) → j < k → g j ≡ ((i == j) || f j))
    → f i ≡ false
    → i < k
    → count g k ≡ suc (count f k)
unfolding count
count-add f g i zero h e l = elim l [ ]
count-add f g i (suc k) h e l = elim (Bool-cases (i == k)) [
  | inl same ↦
      let rest : count g k ≡ count f k =
        count-congr g f k (λ j m. ground (arith, h j (omega arith))) in
      ground (arith, h k (omega arith))
  | inr other ↦
      ground
        (arith, h k (omega arith), count-add f g i k (λ j m. h j (omega arith)) e (ground arith))
]

-- One number fewer passes.
pub count-sub :
    (f g : ℕ → Bool) (i k : ℕ)
    → ((j : ℕ) → j < k → g j ≡ (not (i == j) && f j))
    → f i ≡ true
    → i < k
    → suc (count g k) ≡ count f k
unfolding count
count-sub f g i zero h e l = elim l [ ]
count-sub f g i (suc k) h e l = elim (Bool-cases (i == k)) [
  | inl same ↦
      let rest : count g k ≡ count f k =
        count-congr g f k (λ j m. ground (arith, h j (omega arith))) in
      ground (arith, h k (omega arith))
  | inr other ↦
      ground
        (arith, h k (omega arith), count-sub f g i k (λ j m. h j (omega arith)) e (ground arith))
]

-- None passes when the count is 0.
pub count_zero : (f : ℕ → Bool) (k : ℕ) → count f k ≡ 0 → (j : ℕ) → j < k → f j ≡ false
unfolding count
count_zero f zero h j l = elim l [ ]
count_zero f (suc k) h j l = elim (Bool-cases (j == k)) [
  | inl same ↦ let e : j ≡ k = ground arith in rw e (ground arith)
  | inr other ↦ count_zero f k (ground arith) j (ground arith)
]

pub count_none : (f : ℕ → Bool) (k : ℕ) → ((j : ℕ) → j < k → f j ≡ false) → count f k ≡ 0
unfolding count
count_none f zero h = refl
count_none f (suc k) h =
    ground (arith, h k (omega arith), count_none f k (λ j l. h j (omega arith)))

pub count_all : (f : ℕ → Bool) (k : ℕ) → ((j : ℕ) → j < k → f j ≡ true) → count f k ≡ k
unfolding count
count_all f zero h = refl
count_all f (suc k) h = ground (arith, h k (omega arith), count_all f k (λ j l. h j (omega arith)))
