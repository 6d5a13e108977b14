-- ===== src/Prelude/Bitmap.antt =====
-- Bitmaps: arrays of words of `n` bits, with the bit of number `i` at bit `i % n` of word `i / n`.
use Prim.Native.Nat.{ℕ, zero, suc, ◌+◌, ◌*◌, ◌/◌, ◌%◌, ◌^◌, ◌≤◌, ◌<◌}
use mathlib.Core.Path.{◌≡◌, refl, ap, ap₂, sym, ◌∙◌}
use mathlib.Core.Logic.{◌≢◌, inl, inr}
use mathlib.Core.Bool.{Bool, false, not, ◌&&◌, ◌||◌}
use mathlib.Core.List.{List, [], ◌∷◌}
use native.Mathlib.Omega.{arith}
use native.Mathlib.Nat.{
  mod-lt, div-add-mod, add-mul-div_left, add-mul-mod_self_left, div-eq_of_lt, mod-eq_of_lt,
}
use ares_os.Prelude.Tests.{◌==◌, Bool-cases}
use ares_os.Prelude.Lists.{
  length, get_or, set, length-set, get_or-set_self, get_or-set_ne, get_or_outside,
}
use ares_os.Prelude.Word.{
  bit, set_bit, clear_bit, bit-set_bit, bit-clear_bit, set_bit-lt, clear_bit-le, zero-bit,
  eq_of_bits,
}

module _ (n : ℕ) where
  unfoldable pub test : List ℕ → ℕ → Bool
  test bm i = bit (get_or bm (i / n) 0) (i % n)

  unfoldable pub set_one : List ℕ → ℕ → List ℕ
  set_one bm i = set bm (i / n) (set_bit (get_or bm (i / n) 0) (i % n))

  unfoldable pub set_zero : List ℕ → ℕ → List ℕ
  set_zero bm i = set bm (i / n) (clear_bit n (get_or bm (i / n) 0) (i % n))

  -- Each word fits its width.
  abbrev pub IsWords : List ℕ → Type 0
  IsWords bm = (k : ℕ) → get_or bm k 0 < 2 ^ n

  pub length-set_one : (bm : List ℕ) (i : ℕ) → length (set_one bm i) ≡ length bm
  unfolding set_one
  length-set_one bm i = length-set bm (i / n) _

  pub length-set_zero : (bm : List ℕ) (i : ℕ) → length (set_zero bm i) ≡ length bm
  unfolding set_zero
  length-set_zero bm i = length-set bm (i / n) _

  same_place : (i j : ℕ) → i / n ≡ j / n → i % n ≡ j % n → i ≡ j
  same_place i j p q = sym (div-add-mod i n) ∙ ap₂ (λ a b. n * a + b) p q ∙ div-add-mod j n

  other_bit : (i j : ℕ) → (i == j) ≡ false → i / n ≡ j / n → ((i % n) == (j % n)) ≡ false
  other_bit i j h e = elim (Bool-cases ((i % n) == (j % n))) [
    | inl s ↦ absurd (let x : i ≡ j = same_place i j e (ground arith) in ground arith)
    | inr d ↦ d
  ]

  module _ (pos : 0 < n) where
    -- `set_one` sets that bit and no other.
    pub test-set_one :
        (bm : List ℕ) (i j : ℕ)
        → i / n < length bm
        → test (set_one bm i) j ≡ ((i == j) || test bm j)
    unfolding test set_one
    test-set_one bm i j h = elim (Bool-cases ((i / n) == (j / n))) [
      | inl e ↦
          let e' : i / n ≡ j / n = ground arith in
          rw (← e', get_or-set_self bm (i / n) (set_bit (get_or bm (i / n) 0) (i % n)) 0 h)
            (rw (bit-set_bit (get_or bm (i / n) 0) (i % n) (j % n)) (elim (Bool-cases (i == j)) [
              | inl s ↦ let s' : i ≡ j = ground arith in rw (s, ap (λ t. t % n) s') (ground arith)
              | inr d ↦ rw (d, other_bit i j d e') refl
            ]))
      | inr d ↦
          let d' : i / n ≢ j / n = ground arith in
          rw (get_or-set_ne bm (set_bit (get_or bm (i / n) 0) (i % n)) 0 d') (
            let k : (i == j) ≡ false = elim (Bool-cases (i == j)) [
              | inl s ↦ absurd (d' (ap (λ t. t / n) (let s' : i ≡ j = ground arith in s')))
              | inr k ↦ k
            ] in
            rw k)
    ]

    -- `set_zero` clears that bit and no other.
    pub test-set_zero :
        (bm : List ℕ) (i j : ℕ)
        → i / n < length bm
        → test (set_zero bm i) j ≡ (not (i == j) && test bm j)
    unfolding test set_zero
    test-set_zero bm i j h = elim (Bool-cases ((i / n) == (j / n))) [
      | inl e ↦
          let e' : i / n ≡ j / n = ground arith in
          rw (← e', get_or-set_self bm (i / n) (clear_bit n (get_or bm (i / n) 0) (i % n)) 0 h)
            (rw
              (bit-clear_bit n (get_or bm (i / n) 0) (i % n) (j % n) (mod-lt i pos) (mod-lt j pos))
              (elim (Bool-cases (i == j)) [
                | inl s ↦ let s' : i ≡ j = ground arith in rw (s, ap (λ t. t % n) s') (ground arith)
                | inr d ↦ rw (d, other_bit i j d e') refl
              ]))
      | inr d ↦
          let d' : i / n ≢ j / n = ground arith in
          rw (get_or-set_ne bm (clear_bit n (get_or bm (i / n) 0) (i % n)) 0 d') (
            let k : (i == j) ≡ false = elim (Bool-cases (i == j)) [
              | inl s ↦ absurd (d' (ap (λ t. t / n) (let s' : i ≡ j = ground arith in s')))
              | inr k ↦ k
            ] in
            rw k)
    ]

    set-IsWords : (bm : List ℕ) (k v : ℕ) → IsWords bm → v < 2 ^ n → IsWords (set bm k v)
    set-IsWords [] k v h l m = h m
    set-IsWords (w ∷ bm) zero v h l zero = l
    set-IsWords (w ∷ bm) zero v h l (suc m) = h (suc m)
    set-IsWords (w ∷ bm) (suc k) v h l zero = h 0
    set-IsWords (w ∷ bm) (suc k) v h l (suc m) = set-IsWords bm k v (λ t. h (suc t)) l m

    pub set_one-IsWords : (bm : List ℕ) (i : ℕ) → IsWords bm → IsWords (set_one bm i)
    unfolding set_one
    set_one-IsWords bm i h =
        set-IsWords bm (i / n) _ h
          (set_bit-lt n (get_or bm (i / n) 0) (i % n) (mod-lt i pos) (h (i / n)))

    pub set_zero-IsWords : (bm : List ℕ) (i : ℕ) → IsWords bm → IsWords (set_zero bm i)
    unfolding set_zero
    set_zero-IsWords bm i h =
        set-IsWords bm (i / n) _ h
          (omega (arith, h (i / n), clear_bit-le n (get_or bm (i / n) 0) (i % n)))

    place-div : (k j : ℕ) → j < n → (j + n * k) / n ≡ k
    place-div k j h = omega (arith, add-mul-div_left j k pos, div-eq_of_lt h)

    place-mod : (k j : ℕ) → j < n → (j + n * k) % n ≡ j
    place-mod k j h = add-mul-mod_self_left j n k ∙ mod-eq_of_lt h

    -- The bit at a place of a word.
    pub test_at : (bm : List ℕ) (k j : ℕ) → j < n → test bm (j + n * k) ≡ bit (get_or bm k 0) j
    unfolding test
    test_at bm k j h = rw (place-div k j h, place-mod k j h)

    eq_of_words :
        (xs ys : List ℕ)
        → length xs ≡ length ys
        → ((k : ℕ) → get_or xs k 0 ≡ get_or ys k 0)
        → xs ≡ ys
    eq_of_words [] [] e h = refl
    eq_of_words [] (y ∷ ys) e h = absurd (omega arith)
    eq_of_words (x ∷ xs) [] e h = absurd (omega arith)
    eq_of_words (x ∷ xs) (y ∷ ys) e h =
        ap₂ ◌∷◌ (h 0) (eq_of_words xs ys (omega arith) (λ k. h (suc k)))

    -- Bitmaps of one size with the same bits are equal.
    pub eq_of_tests :
        (xs ys : List ℕ)
        → length xs ≡ length ys
        → IsWords xs
        → IsWords ys
        → ((i : ℕ) → test xs i ≡ test ys i)
        → xs ≡ ys
    eq_of_tests xs ys e hx hy h = eq_of_words xs ys e λ k.
        eq_of_bits n (get_or xs k 0) (get_or ys k 0) (hx k) (hy k)
          λ j l. sym (test_at xs k j l) ∙ h (j + n * k) ∙ test_at ys k j l

  -- Beyond the array no bit is set.
  pub test_outside : (bm : List ℕ) (i : ℕ) → length bm ≤ i / n → test bm i ≡ false
  unfolding test
  test_outside bm i h = rw (get_or_outside bm (i / n) 0 h) (zero-bit (i % n))
