-- ===== src/Prelude/Word/Step.antt =====
-- How `&` and `|` act on the halves of their operands, and induction on halves.
use Prim.Native.Nat.{
  ℕ, zero, suc, ◌+◌, ◌-◌, ◌*◌, ◌/◌, ◌%◌, ◌≤◌, min, max, bit_and, bit_or, digits, bitwise,
  bit_and-bitwise, bit_or-bitwise, bit_xor, bit_xor-bitwise, differ,
}
use mathlib.Core.Path.{◌≡◌, refl, ap, ◌∙◌, sym}
use native.Mathlib.Omega.{arith}

-- A property of 0 that passes from each half to the whole holds of every number.
pub by_halves {ℓ} : (P : ℕ → Type ℓ) → P 0 → ((w : ℕ) → P (w / 2) → P w) → (w : ℕ) → P w
by_halves P base step w = descend w w (omega arith)
  where
    descend : (rounds v : ℕ) → v ≤ rounds → P v
    descend rounds zero h = base
    descend zero (suc v) h = absurd (omega arith)
    descend (suc rounds) (suc v) h = step (suc v) (descend rounds (suc v / 2) (omega arith))

module _ (low : ℕ → ℕ) (op : ℕ → ℕ → ℕ) where
  -- One round more than are needed changes nothing, and so no number of rounds does.
  spare_round : (k v w : ℕ) → v ≤ k → digits low op (suc k) v w ≡ digits low op k v w
  spare_round zero zero w h = refl
  spare_round (suc k) zero w h = refl
  spare_round zero (suc v) w h = absurd (omega arith)
  spare_round (suc k) (suc v) w h =
      ap (λ d. d * 2 + op (suc v % 2) (w % 2)) (spare_round k (suc v / 2) (w / 2) (omega arith))

  spare_rounds : (n v w : ℕ) → digits low op (v + n) v w ≡ digits low op v v w
  spare_rounds zero v w = ap (λ k. digits low op k v w) (omega arith)
  spare_rounds (suc n) v w =
      ap (λ k. digits low op k v w) (let e : v + suc n ≡ suc (v + n) = omega arith in e)
      ∙ spare_round (v + n) v w (omega arith)
      ∙ spare_rounds n v w

  bitwise_halves :
      (v w : ℕ)
      → bitwise low op (suc v) w ≡ bitwise low op (suc v / 2) (w / 2) * 2 + op (suc v % 2) (w % 2)
  bitwise_halves v w =
      ap (λ k. digits low op k (suc v / 2) (w / 2) * 2 + op (suc v % 2) (w % 2))
        (let e : v ≡ suc v / 2 + (v - suc v / 2) = omega arith in e)
      ∙ ap (λ d. d * 2 + op (suc v % 2) (w % 2)) (spare_rounds (v - suc v / 2) (suc v / 2) (w / 2))

pub bit_or-halves : (v w : ℕ) → bit_or v w ≡ bit_or (v / 2) (w / 2) * 2 + max (v % 2) (w % 2)
bit_or-halves zero w =
    let here = bit_or-bitwise 0 w in let half = bit_or-bitwise 0 (w / 2) in omega arith
bit_or-halves (suc v) w =
    bit_or-bitwise (suc v) w
    ∙ bitwise_halves _ max v w
    ∙ ap (λ d. d * 2 + max (suc v % 2) (w % 2)) (sym (bit_or-bitwise (suc v / 2) (w / 2)))

pub bit_and-halves : (v w : ℕ) → bit_and v w ≡ bit_and (v / 2) (w / 2) * 2 + min (v % 2) (w % 2)
bit_and-halves zero w =
    let here = bit_and-bitwise 0 w in let half = bit_and-bitwise 0 (w / 2) in omega arith
bit_and-halves (suc v) w =
    bit_and-bitwise (suc v) w
    ∙ bitwise_halves _ min v w
    ∙ ap (λ d. d * 2 + min (suc v % 2) (w % 2)) (sym (bit_and-bitwise (suc v / 2) (w / 2)))

pub bit_xor-halves : (v w : ℕ) → bit_xor v w ≡ bit_xor (v / 2) (w / 2) * 2 + differ (v % 2) (w % 2)
bit_xor-halves zero w =
    let here = bit_xor-bitwise 0 w in let half = bit_xor-bitwise 0 (w / 2) in omega arith
bit_xor-halves (suc v) w =
    bit_xor-bitwise (suc v) w
    ∙ bitwise_halves _ differ v w
    ∙ ap (λ d. d * 2 + differ (suc v % 2) (w % 2)) (sym (bit_xor-bitwise (suc v / 2) (w / 2)))
