-- ===== src/Prelude/Word.antt =====
-- Bits of machine words: what `|`, `&` and `& ~` do to the bit at each position.
mod Step
use Step.{by_halves, bit_or-halves, bit_and-halves, bit_xor-halves}
use Prim.Native.Nat.{
  ℕ, zero, suc, ◌+◌, ◌-◌, ◌*◌, ◌/◌, ◌%◌, ◌^◌, ◌≤◌, ◌<◌, bit_and, bit_or, min, max, bit_and-bitwise,
  bit_xor, bit_xor-bitwise, differ,
}
use mathlib.Core.Path.{◌≡◌, refl, ap, ◌∙◌, sym}
use mathlib.Core.Bool.{Bool, true, false, not, ◌&&◌, ◌||◌}
use mathlib.Core.Logic.{◌≢◌}
use native.Mathlib.Omega.{arith}
use native.Mathlib.Nat.{pow-succ', div-div-eq-div-mul, one-le-pow, div-one}
use ares_os.Prelude.Tests.{◌==◌}

-- `(w >> i) & 1`, as a test.
unfoldable pub bit : ℕ → ℕ → Bool
bit w i = (w / 2 ^ i) % 2 == 1

-- `w | (1 << i)`.
unfoldable pub set_bit : ℕ → ℕ → ℕ
set_bit w i = bit_or w (2 ^ i)

-- `w & ~(1 << i)` in a word of `n` bits.
unfoldable pub clear_bit : ℕ → ℕ → ℕ → ℕ
clear_bit n w i = bit_and w (2 ^ n - 1 - 2 ^ i)

pub bit-zero : (w : ℕ) → bit w 0 ≡ (w % 2 == 1)
unfolding bit
bit-zero w = ap (λ t. t % 2 == 1) (div-one w)

pub bit-suc : (w i : ℕ) → bit w (suc i) ≡ bit (w / 2) i
unfolding bit
bit-suc w i =
    ap (λ t. t % 2 == 1) (ap (λ t. w / t) (pow-succ' 2 i) ∙ sym (div-div-eq-div-mul w 2 (2 ^ i)))

pub bit_or-zero : (w : ℕ) → bit_or w 0 ≡ w
bit_or-zero = by_halves (λ w. bit_or w 0 ≡ w) refl λ w half. omega (arith, bit_or-halves w 0)

pub bit_and-zero : (w : ℕ) → bit_and w 0 ≡ 0
bit_and-zero = by_halves (λ w. bit_and w 0 ≡ 0) refl λ w half. omega (arith, bit_and-halves w 0)

-- A mask of one bit.
pub bit_and-one : (w : ℕ) → bit_and w 1 ≡ w % 2
bit_and-one w = let rest = bit_and-zero (w / 2) in omega (arith, bit_and-halves w 1)

pub zero-bit : (i : ℕ) → bit 0 i ≡ false
zero-bit zero = rw bit-zero
zero-bit (suc i) = rw bit-suc (zero-bit i)

set_bit-half : (w i : ℕ) → set_bit w (suc i) / 2 ≡ set_bit (w / 2) i
unfolding set_bit
set_bit-half w i = omega (
  arith,
  pow-succ' 2 i,
  bit_or-halves w (2 * 2 ^ i),
  ap (λ t. bit_or w t) (pow-succ' 2 i),
  ap (λ t. bit_or (w / 2) t) (let e : 2 * 2 ^ i / 2 ≡ 2 ^ i = omega arith in e),
)

set_bit-parity : (w i : ℕ) → set_bit w (suc i) % 2 ≡ w % 2
unfolding set_bit
set_bit-parity w i =
    omega (arith, bit_or-halves w (2 * 2 ^ i), ap (λ t. bit_or w t) (pow-succ' 2 i))

set_bit_one : (w : ℕ) → set_bit w 0 ≡ w / 2 * 2 + 1
unfolding set_bit
set_bit_one w = omega (arith, bit_or-halves w 1, bit_or-zero (w / 2))

-- `|` sets that bit and keeps every other.
pub bit-set_bit : (w i j : ℕ) → bit (set_bit w i) j ≡ ((i == j) || bit w j)
bit-set_bit w zero zero = ground (arith, bit-zero (set_bit w 0), bit-zero w, set_bit_one w)
bit-set_bit w zero (suc j) =
    rw (bit-suc (set_bit w 0) j, bit-suc w j)
      (let e : set_bit w 0 / 2 ≡ w / 2 = omega (arith, set_bit_one w) in rw e (ground arith))
bit-set_bit w (suc i) zero =
    ground (arith, bit-zero (set_bit w (suc i)), bit-zero w, set_bit-parity w i)
bit-set_bit w (suc i) (suc j) =
    rw (bit-suc (set_bit w (suc i)) j, bit-suc w j, set_bit-half w i)
      (rw (bit-set_bit (w / 2) i j) (ground arith))

pub set_bit-lt : (n w i : ℕ) → i < n → w < 2 ^ n → set_bit w i < 2 ^ n
set_bit-lt zero w i h k = elim h [ ]
set_bit-lt (suc n) w zero h k = omega (arith, set_bit_one w, pow-succ' 2 n)
set_bit-lt (suc n) w (suc i) h k = omega (
  arith,
  pow-succ' 2 n,
  set_bit-half w i,
  set_bit-parity w i,
  let small : w / 2 < 2 ^ n = omega (arith, pow-succ' 2 n) in
      set_bit-lt n (w / 2) i (omega arith) small,
)

-- A mask of `n` ones, and the same less one bit.
ones-suc : (n : ℕ) → 2 ^ suc n - 1 ≡ 2 * (2 ^ n - 1) + 1
ones-suc n = omega (arith, pow-succ' 2 n, one-le-pow n 2 (omega arith))

ones-half : (n : ℕ) → (2 ^ suc n - 1) / 2 ≡ 2 ^ n - 1
ones-half n = omega (arith, ones-suc n)

pub bit-ones : (n w j : ℕ) → j < n → bit (bit_and w (2 ^ n - 1)) j ≡ bit w j
bit-ones zero w j h = elim h [ ]
bit-ones (suc n) w zero h = ground (
  arith,
  bit-zero (bit_and w (2 ^ suc n - 1)),
  bit-zero w,
  bit_and-halves w (2 ^ suc n - 1),
  ones-suc n,
)
bit-ones (suc n) w (suc j) h =
    rw (bit-suc (bit_and w (2 ^ suc n - 1)) j, bit-suc w j)
      (let e : bit_and w (2 ^ suc n - 1) / 2 ≡ bit_and (w / 2) (2 ^ n - 1) =
          omega
            (arith, bit_and-halves w (2 ^ suc n - 1), ap (λ t. bit_and (w / 2) t) (ones-half n)) in
        rw e (bit-ones n (w / 2) j (omega arith)))

pow-lt : (i n : ℕ) → i < n → 2 ^ i + 1 ≤ 2 ^ n
pow-lt i zero h = elim h [ ]
pow-lt zero (suc n) h = omega (arith, pow-succ' 2 n, one-le-pow n 2 (omega arith))
pow-lt (suc i) (suc n) h =
    omega
      (arith, pow-succ' 2 n, pow-succ' 2 i, pow-lt i n (omega arith), one-le-pow n 2 (omega arith))

hole-half : (n i : ℕ) → i < n → (2 ^ suc n - 1 - 2 ^ suc i) / 2 ≡ 2 ^ n - 1 - 2 ^ i
hole-half n i h = omega (arith, pow-succ' 2 n, pow-succ' 2 i, pow-lt i n h)

hole-parity : (n i : ℕ) → i < n → (2 ^ suc n - 1 - 2 ^ suc i) % 2 ≡ 1
hole-parity n i h = omega (arith, pow-succ' 2 n, pow-succ' 2 i, pow-lt i n h)

clear_bit-half : (n w i : ℕ) → i < n → clear_bit (suc n) w (suc i) / 2 ≡ clear_bit n (w / 2) i
unfolding clear_bit
clear_bit-half n w i h = omega (
  arith,
  bit_and-halves w (2 ^ suc n - 1 - 2 ^ suc i),
  ap (λ t. bit_and (w / 2) t) (hole-half n i h),
)

clear_bit-parity : (n w i : ℕ) → i < n → clear_bit (suc n) w (suc i) % 2 ≡ w % 2
unfolding clear_bit
clear_bit-parity n w i h =
    omega (arith, bit_and-halves w (2 ^ suc n - 1 - 2 ^ suc i), hole-parity n i h)

clear_bit_low : (n w : ℕ) → clear_bit (suc n) w 0 ≡ 2 * bit_and (w / 2) (2 ^ n - 1)
unfolding clear_bit
clear_bit_low n w =
    let low : (2 ^ suc n - 1 - 2 ^ 0) % 2 ≡ 0 = omega (arith, ones-suc n) in
    let high : (2 ^ suc n - 1 - 2 ^ 0) / 2 ≡ 2 ^ n - 1 = omega (arith, ones-suc n) in
    omega (arith, bit_and-halves w (2 ^ suc n - 1 - 2 ^ 0), ap (λ t. bit_and (w / 2) t) high)

-- `& ~` clears that bit and keeps every other bit of the word.
pub bit-clear_bit :
    (n w i j : ℕ) → i < n → j < n → bit (clear_bit n w i) j ≡ (not (i == j) && bit w j)
bit-clear_bit zero w i j h k = elim h [ ]
bit-clear_bit (suc n) w zero zero h k =
    ground (arith, bit-zero (clear_bit (suc n) w 0), clear_bit_low n w)
bit-clear_bit (suc n) w zero (suc j) h k =
    rw (bit-suc (clear_bit (suc n) w 0) j, bit-suc w j)
      (let e : clear_bit (suc n) w 0 / 2 ≡ bit_and (w / 2) (2 ^ n - 1) =
          omega (arith, clear_bit_low n w) in
        rw e (ground (arith, bit-ones n (w / 2) j)))
bit-clear_bit (suc n) w (suc i) zero h k = ground (
  arith,
  bit-zero (clear_bit (suc n) w (suc i)),
  bit-zero w,
  clear_bit-parity n w i (omega arith),
)
bit-clear_bit (suc n) w (suc i) (suc j) h k =
    rw (bit-suc (clear_bit (suc n) w (suc i)) j, bit-suc w j, clear_bit-half n w i (omega arith))
      (rw (bit-clear_bit n (w / 2) i j (omega arith) (omega arith)) (ground arith))

pub bit_and-le : (v w : ℕ) → bit_and v w ≤ v
bit_and-le =
    by_halves (λ v. (w : ℕ) → bit_and v w ≤ v)
      (λ w. let none_left = bit_and-bitwise 0 w in omega arith)
      λ v half w. let h = half (w / 2) in omega (arith, bit_and-halves v w)

pub clear_bit-le : (n w i : ℕ) → clear_bit n w i ≤ w
unfolding clear_bit
clear_bit-le n w i = bit_and-le w (2 ^ n - 1 - 2 ^ i)

eq_of_halves : (a b : ℕ) → a / 2 ≡ b / 2 → (a % 2 == 1) ≡ (b % 2 == 1) → a ≡ b
eq_of_halves a b h k = ground arith

-- Words with the same bits are equal.
pub eq_of_bits : (n a b : ℕ) → a < 2 ^ n → b < 2 ^ n → ((j : ℕ) → j < n → bit a j ≡ bit b j) → a ≡ b
eq_of_bits zero a b p q h = omega arith
eq_of_bits (suc n) a b p q h =
    let p' : a / 2 < 2 ^ n = omega (arith, pow-succ' 2 n) in
    let q' : b / 2 < 2 ^ n = omega (arith, pow-succ' 2 n) in
    eq_of_halves a b
      (eq_of_bits n (a / 2) (b / 2) p' q'
        λ j k. sym (bit-suc a j) ∙ h (suc j) (omega arith) ∙ bit-suc b j)
      (sym (bit-zero a) ∙ h 0 (omega arith) ∙ bit-zero b)

-- A word with a bit set is not zero, and a word that is not zero has a bit set.
pub bit-ne_zero : (w i : ℕ) → bit w i ≡ true → w ≢ 0
bit-ne_zero w i h e = cc (zero-bit i, ap (λ t. bit t i) e)

differ-lt : (x y : ℕ) → x < 2 → y < 2 → differ x y < 2
differ-lt zero y h k = k
differ-lt (suc x) zero h k = h
differ-lt (suc x) (suc y) h k = differ-lt x y (omega arith) (omega arith)

-- An exclusive or fits the word.
pub bit_xor-lt : (n v w : ℕ) → v < 2 ^ n → w < 2 ^ n → bit_xor v w < 2 ^ n
bit_xor-lt zero v w h k =
    let e : v ≡ 0 = omega arith in
    let f : w ≡ 0 = omega arith in rw (e, f) (let here = bit_xor-bitwise 0 0 in omega arith)
bit_xor-lt (suc n) v w h k =
    let h' : v / 2 < 2 ^ n = omega (arith, pow-succ' 2 n) in
    let k' : w / 2 < 2 ^ n = omega (arith, pow-succ' 2 n) in
    omega (
      arith,
      pow-succ' 2 n,
      bit_xor-halves v w,
      bit_xor-lt n (v / 2) (w / 2) h' k',
      differ-lt (v % 2) (w % 2) (omega arith) (omega arith),
    )

-- A mask of `n` ones keeps a word that fits.
pub bit_and_ones : (n w : ℕ) → w < 2 ^ n → bit_and w (2 ^ n - 1) ≡ w
bit_and_ones n w h =
    eq_of_bits n (bit_and w (2 ^ n - 1)) w (omega (arith, bit_and-le w (2 ^ n - 1))) h
      λ j k. bit-ones n w j k

-- `w & ~15` in a word of 64 bits.
pub bit_and_high : (w : ℕ) → w < 2 ^ 64 → bit_and w (2 ^ 64 - 16) ≡ w / 16 * 16
bit_and_high w h = omega (
  arith,
  bit_and-halves w (2 ^ 64 - 16),
  bit_and-halves (w / 2) (2 ^ 63 - 8),
  bit_and-halves (w / 2 / 2) (2 ^ 62 - 4),
  bit_and-halves (w / 2 / 2 / 2) (2 ^ 61 - 2),
  bit_and_ones 60 (w / 2 / 2 / 2 / 2) (omega arith),
)
