-- ===== src/Prelude/Lowest.antt =====
-- The loop that finds the lowest bit of a word, as memory/pmm.c and process/pcb.c write it.
use Prim.Native.Nat.{ℕ, zero, suc, ◌+◌, ◌/◌, ◌%◌, ◌^◌, ◌<◌, bit_and}
use mathlib.Core.Path.{◌≡◌, ap, ◌∙◌}
use mathlib.Core.Bool.{true, false}
use mathlib.Core.Option.{Option, none, some}
use mathlib.Core.Logic.{◌≢◌, inl, inr}
use native.Mathlib.Omega.{arith}
use native.Mathlib.Nat.{pow-succ'}
use ares_os.Prelude.Tests.{◌==◌, Bool-cases, if◌then◌else◌}
use ares_os.Prelude.Word.{bit, bit-zero, bit-suc, bit_and-one}

-- `while ((word & 1) == 0) { word >>= 1; bit++; }`
unfoldable pub first_set : ℕ → ℕ → ℕ → Option ℕ
first_set zero word bit = none
first_set (suc fuel) word bit =
    let rest = first_set fuel (word / 2) (bit + 1) in if bit_and word 1 == 0 then rest else some bit

-- `b` is the position of the lowest bit of the word.
pub record IsLowestBit (word b : ℕ) : Type 0 where
  pub is_set : bit word b ≡ true
  pub lower : (j : ℕ) → j < b → bit word j ≡ false

half-IsLowestBit : (word b : ℕ) → word % 2 ≡ 0 → IsLowestBit (word / 2) b → IsLowestBit word (suc b)
half-IsLowestBit word b e l = record { is_set = bit-suc word b ∙ l.is_set; lower = below }
  where
    below : (j : ℕ) → j < suc b → bit word j ≡ false
    below zero h = ground (arith, bit-zero word)
    below (suc j) h = bit-suc word j ∙ l.lower j (omega arith)

-- With as many rounds as the word has bits the loop ends, at the lowest bit.
pub first_set_lem :
    (fuel word acc : ℕ)
    → word ≢ 0
    → word < 2 ^ fuel
    → (b : ℕ) × (first_set fuel word acc ≡ some (acc + b)) × IsLowestBit word b × (b < fuel)
unfolding first_set
first_set_lem zero word acc ne h = absurd (omega arith)
first_set_lem (suc fuel) word acc ne h = elim (Bool-cases (bit_and word 1 == 0)) [
  | inl even ↦
      let half : word / 2 < 2 ^ fuel = omega (arith, pow-succ' 2 fuel) in
      let parity : word % 2 ≡ 0 = ground (arith, bit_and-one word) in
      let (b, e, l, s) = first_set_lem fuel (word / 2) (acc + 1) (omega arith) half in
      (suc b, rw even (e ∙ ap some (omega arith)), half-IsLowestBit word b parity l, omega arith)
  | inr odd ↦
      let parity : word % 2 ≡ 1 = ground (arith, bit_and-one word) in
      (
        0,
        rw odd (ap some (omega arith)),
        record { is_set = ground (arith, bit-zero word); lower = λ j k. elim k [ ] },
        omega arith,
      )
]
