-- ===== src/Prelude/Sets.antt =====
-- Lists of distinct numbers, by Boolean membership, and how long they can be.
use Prim.Native.Nat.{ℕ, zero, suc, ◌≤◌, ◌<◌}
use mathlib.Core.Path.{◌≡◌, refl}
use mathlib.Core.Bool.{Bool, true, false, ◌||◌}
use mathlib.Core.Logic.{inl, inr}
use mathlib.Core.List.{List, [], ◌∷◌, ◌++◌}
use native.Mathlib.Omega.{arith}
use ares_os.Prelude.Tests.{◌==◌, if◌then◌else◌, Bool-cases}
use ares_os.Prelude.Lists.{length}

abbrev pub has : ℕ → List ℕ → Bool
has a [] = false
has a (x ∷ xs) = (a == x) || has a xs

abbrev pub All {ℓ κ} : {A : Type ℓ} → (A → Type κ) → List A → Type κ
All P [] = Unit
All P (x ∷ xs) = P x × All P xs

-- No member stands twice.
abbrev pub Distinct : List ℕ → Type 0
Distinct [] = Unit
Distinct (x ∷ xs) = (has x xs ≡ false) × Distinct xs

abbrev pub remove : ℕ → List ℕ → List ℕ
remove a [] = []
remove a (x ∷ xs) = if a == x then xs else x ∷ remove a xs

pub has-append : (a : ℕ) (xs ys : List ℕ) → has a (xs ++ ys) ≡ (has a xs || has a ys)
has-append a [] ys = refl
has-append a (x ∷ xs) ys = ground (arith, has-append a xs ys)

pub remove_none : (a : ℕ) (xs : List ℕ) → has a xs ≡ false → remove a xs ≡ xs
remove_none a [] h = refl
remove_none a (x ∷ xs) h = ground (arith, remove_none a xs)

pub has-remove_ne : (a b : ℕ) (xs : List ℕ) → (a == b) ≡ false → has a (remove b xs) ≡ has a xs
has-remove_ne a b [] h = refl
has-remove_ne a b (x ∷ xs) h = ground (arith, has-remove_ne a b xs h)

pub has-remove_out : (a b : ℕ) (xs : List ℕ) → has a xs ≡ false → has a (remove b xs) ≡ false
has-remove_out a b [] h = refl
has-remove_out a b (x ∷ xs) h = ground (arith, has-remove_out a b xs)

pub has-remove_self : (a : ℕ) (xs : List ℕ) → Distinct xs → has a (remove a xs) ≡ false
has-remove_self a [] d = refl
has-remove_self a (x ∷ xs) d = ground (arith, has-remove_self a xs d.1)

pub remove-Distinct : (a : ℕ) (xs : List ℕ) → Distinct xs → Distinct (remove a xs)
remove-Distinct a [] d = tt
remove-Distinct a (x ∷ xs) d = elim (Bool-cases (a == x)) [
  | inl e ↦ rw e d.1
  | inr e ↦ rw e (has-remove_out x a xs d.0, remove-Distinct a xs d.1)
]

pub append-Distinct :
    (xs : List ℕ) (a : ℕ) → Distinct xs → has a xs ≡ false → Distinct (xs ++ (a ∷ []))
append-Distinct [] a d h = (refl, tt)
append-Distinct (x ∷ xs) a d h =
    (ground (arith, has-append x xs (a ∷ [])), append-Distinct xs a d.1 (ground arith))

pub length-remove : (a : ℕ) (xs : List ℕ) → has a xs ≡ true → suc (length (remove a xs)) ≡ length xs
length-remove a [] h = ground arith
length-remove a (x ∷ xs) h = ground (arith, length-remove a xs)

-- Every member is below `n`.
abbrev pub Below : ℕ → List ℕ → Type 0
Below n xs = All (λ x. x < n) xs

has-remove_bound : (n : ℕ) (xs : List ℕ) → Below (suc n) xs → has n xs ≡ false → Below n xs
has-remove_bound n [] b h = tt
has-remove_bound n (x ∷ xs) b h = (ground arith, has-remove_bound n xs b.1 (ground arith))

pub remove-All {ℓ} : (P : ℕ → Type ℓ) (a : ℕ) (xs : List ℕ) → All P xs → All P (remove a xs)
remove-All P a [] b = b
remove-All P a (x ∷ xs) b = elim (Bool-cases (a == x)) [
  | inl e ↦ rw e b.1
  | inr e ↦ rw e (b.0, remove-All P a xs b.1)
]

pub append-All {ℓ} :
    (P : ℕ → Type ℓ) (xs : List ℕ) (a : ℕ) → All P xs → P a → All P (xs ++ (a ∷ []))
append-All P [] a b p = (p, tt)
append-All P (x ∷ xs) a b p = (b.0, append-All P xs a b.1 p)

-- Distinct numbers below `n` are at most `n`.
pub length-le_of_Distinct : (n : ℕ) (xs : List ℕ) → Distinct xs → Below n xs → length xs ≤ n
length-le_of_Distinct n [] d b = omega arith
length-le_of_Distinct zero (x ∷ xs) d b = elim b.0 [ ]
length-le_of_Distinct (suc n) (x ∷ xs) d b = elim (Bool-cases (has n (x ∷ xs))) [
  | inl h ↦ omega (
    arith,
    length-remove n (x ∷ xs) h,
    length-le_of_Distinct n (remove n (x ∷ xs)) (remove-Distinct n (x ∷ xs) d) (
        has-remove_bound n (remove n (x ∷ xs)) (remove-All (λ x. x < suc n) n (x ∷ xs) b)
          (has-remove_self n (x ∷ xs) d)),
  )
  | inr h ↦
      let rest : length (x ∷ xs) ≤ n =
        length-le_of_Distinct n (x ∷ xs) d (has-remove_bound n (x ∷ xs) b h) in
      omega arith
]

pub Below-has : (n a : ℕ) (xs : List ℕ) → Below n xs → has a xs ≡ true → a < n
Below-has n a [] b h = absurd (cc)
Below-has n a (x ∷ xs) b h = elim (Bool-cases (a == x)) [
  | inl e ↦ ground (arith, b.0)
  | inr e ↦ Below-has n a xs b.1 (ground arith)
]
