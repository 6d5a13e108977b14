-- ===== src/Memory/Pmm/Drain.antt =====
-- Several calls of `pmm_alloc_page` in a row.
use ares_os.Prelude.{
  ℕ, zero, suc, ◌+◌, ◌*◌, ◌≤◌, ◌≡◌, refl, true, false, arith, ◌==◌, Option, none, some, List, [],
  ◌∷◌, length, has, Distinct, All,
}
use ares_os.Memory.Pmm.{Pmm, bitmap_is_free, pmm_alloc_page}
use ares_os.Memory.Pmm.Inv.{IsValid, is_free-set_used}
use ares_os.Memory.Pmm.Alloc.{IsLowest, taken, pmm_alloc_page-IsLowest}

-- The addresses that `n` calls return; `none` where a call returns NULL.
pub alloc_pages : ℕ → Pmm → Option (List ℕ × Pmm)
alloc_pages zero m = some ([], m)
alloc_pages (suc n) m = elim (pmm_alloc_page m) [
  | none ↦ none
  | some (none, m') ↦ none
  | some (some a, m') ↦ elim (alloc_pages n m') [
    | none ↦ none
    | some (xs, m'') ↦ some (a ∷ xs, m'')
  ]
]

-- `a` is the address of a page that is free in `m`.
abbrev pub IsFreeAddress : Pmm → ℕ → Type 0
IsFreeAddress m a = (p : ℕ) × (a ≡ p * 4096) × (bitmap_is_free m p ≡ true)

-- What is free after a page was taken was free before, and is another page.
earlier :
    (m : Pmm) (p : ℕ) (v : IsValid m) (l : IsLowest m p) (xs : List ℕ)
    → All (IsFreeAddress (taken m p)) xs
    → All (IsFreeAddress m) xs × (has (p * 4096) xs ≡ false)
earlier m p v l [] h = (tt, refl)
earlier m p v l (a ∷ xs) ((q, e, f), h) =
    let (rest, new) = earlier m p v l xs h in
    let k = is_free-set_used m p v.shape l.inside q in
    let other : (p == q) ≡ false = ground arith in
    let was : bitmap_is_free m q ≡ true = ground arith in (((q, e, was), rest), ground (arith, new))

alloc_pages-step :
    (n : ℕ) (m : Pmm) (a : ℕ) (m' : Pmm) (xs : List ℕ) (m'' : Pmm)
    → pmm_alloc_page m ≡ some (some a, m')
    → alloc_pages n m' ≡ some (xs, m'')
    → alloc_pages (suc n) m ≡ some (a ∷ xs, m'')
unfolding alloc_pages
alloc_pages-step n m a m' xs m'' e r = ground arith

-- From a valid state `n` calls succeed if `n` pages are free. They return `n` addresses of pages
-- that were free, no page twice, and the counter falls by `n`.
pub alloc_pages-Distinct :
    (n : ℕ) (m : Pmm)
    → IsValid m
    → n ≤ m.free
    → (xs : List ℕ) × (m' : Pmm) × (alloc_pages n m ≡ some (xs, m'))
      × (length xs ≡ n)
      × Distinct xs
      × All (IsFreeAddress m) xs
      × (m'.free + n ≡ m.free)
      × IsValid m'
unfolding alloc_pages
alloc_pages-Distinct zero m v h = ([], m, refl, refl, tt, tt, omega arith, v)
alloc_pages-Distinct (suc n) m v h =
    let (p, l, e, v') = pmm_alloc_page-IsLowest m v (omega arith) in
    let (xs, m', r, c, d, f, k, v'') = alloc_pages-Distinct n (taken m p) v' (omega arith) in
    let (f', new) = earlier m p v l xs f in
    (
      (p * 4096) ∷ xs,
      m',
      alloc_pages-step n m (p * 4096) (taken m p) xs m' e r,
      ground (arith, c),
      (new, d),
      ((p, refl, l.is_free), f'),
      omega arith,
      v'',
    )
