-- ===== src/Memory/Pmm/Free.antt =====
-- `pmm_free_page`: its guards, and that it undoes an allocation.
use ares_os.Prelude.{
  ℕ, ◌+◌, ◌-◌, ◌*◌, ◌/◌, ◌%◌, ◌<◌, ◌^◌, ◌≡◌, ◌≢◌, ◌∙◌, sym, ap, true, false, arith, ◌==◌, inl, inr,
  Bool-cases, some, leb,
}
use ares_os.Prelude.Bitmap
use ares_os.Prelude.Count.{count-le}
use ares_os.Memory.Pmm.{
  Pmm, bitmap_is_free, bitmap_set_used, bitmap_set_free, pmm_free_page, pmm_alloc_page, inc64,
  pmm_get_used_count, pmm_init,
}
use ares_os.Memory.Pmm.Inv.{
  IsShaped, IsValid, is_free-set_used, is_free-set_free, set_used-IsShaped, set_free-IsShaped,
  count-set_free,
}
use ares_os.Memory.Pmm.Init.{pmm_init-IsBalanced}
use ares_os.Memory.Pmm.Alloc.{IsLowest, taken, taken-IsValid, pmm_alloc_page-cases}

-- The state after page `p` was given back.
abbrev pub released : Pmm → ℕ → Pmm
released m p = record (bitmap_set_free m p) { free = m.free + 1 }

-- An address at which `pmm_free_page` acts: not NULL, aligned, a page below the total, in use.
pub record IsUsedPage (m : Pmm) (addr : ℕ) : Type 0 where
  pub not_null : addr ≢ 0
  pub aligned : addr % 4096 ≡ 0
  pub inside : addr / 4096 < m.total
  pub used : bitmap_is_free m (addr / 4096) ≡ false

-- A page that is not free leaves the counter room.
free-lt-total :
    (m : Pmm) (i : ℕ) → IsValid m → i < m.total → bitmap_is_free m i ≡ false → m.free < m.total
free-lt-total m i v l u = omega (
  arith,
  v.counted,
  count-set_free m i v.shape l u,
  count-le (bitmap_is_free (bitmap_set_free m i)) m.total,
)

-- `pmm_free_page` acts on the address of a page in use, and there it marks that page free, adds one
-- to the counter and leaves a valid state.
pub pmm_free_page-IsValid :
    (m : Pmm) (addr : ℕ)
    → IsValid m
    → IsUsedPage m addr
    → (pmm_free_page addr m ≡ released m (addr / 4096)) × IsValid (released m (addr / 4096))
unfolding pmm_free_page
pmm_free_page-IsValid m addr v u =
    let i = addr / 4096 in
    let shape = set_free-IsShaped m i v.shape u.inside in
    let room = free-lt-total m i v u.inside u.used in
    let inc : inc64 m.free ≡ m.free + 1 = omega (arith, v.shape.limit) in
    (
      ground (arith, u.not_null, u.aligned, u.inside, u.used, inc),
      record {
        shape = record {
          size = shape.size;
          words = shape.words;
          limit = shape.limit;
          outside = shape.outside;
        };
        counted = omega (arith, v.counted, count-set_free m i v.shape u.inside u.used);
      },
    )

-- At every other address, NULL, unaligned, beyond the total or free already (a double free),
-- `pmm_free_page` changes nothing.
pub pmm_free_page_guard : (m : Pmm) (addr : ℕ) → ¬ IsUsedPage m addr → pmm_free_page addr m ≡ m
unfolding pmm_free_page
pmm_free_page_guard m addr no_page = elim (Bool-cases (addr == 0)) [
  | inl a ↦ rw a
  | inr a ↦ rw a (elim (Bool-cases (addr % 4096 == 0)) [
    | inr b ↦ rw b
    | inl b ↦ rw b (elim (Bool-cases (leb m.total (addr / 4096))) [
      | inl c ↦ rw c
      | inr c ↦ rw c (elim (Bool-cases (bitmap_is_free m (addr / 4096))) [
        | inl d ↦ rw d
        | inr d ↦ absurd (
            no_page (record {
              not_null = ground arith;
              aligned = ground arith;
              inside = ground arith;
              used = d;
            }))
      ])
    ])
  ])
]

-- Whatever the address, `pmm_free_page` keeps the state valid.
pub pmm_free_page-keeps : (m : Pmm) (addr : ℕ) → IsValid m → IsValid (pmm_free_page addr m)
unfolding pmm_free_page
pmm_free_page-keeps m addr v = elim (Bool-cases (addr == 0)) [
  | inl a ↦ rw a v
  | inr a ↦ rw a (elim (Bool-cases (addr % 4096 == 0)) [
    | inr b ↦ rw b v
    | inl b ↦ rw b (elim (Bool-cases (leb m.total (addr / 4096))) [
      | inl c ↦ rw c v
      | inr c ↦ rw c (elim (Bool-cases (bitmap_is_free m (addr / 4096))) [
        | inl d ↦ rw d v
        | inr d ↦
            let u : IsUsedPage m addr = record {
              not_null = ground arith;
              aligned = ground arith;
              inside = ground arith;
              used = d;
            } in
            let inc : inc64 m.free ≡ m.free + 1 =
              omega (arith, v.shape.limit, free-lt-total m (addr / 4096) v u.inside d) in
            rw (d, inc) (pmm_free_page-IsValid m addr v u).1
      ])
    ])
  ])
]

-- Setting the bit that was cleared gives the bitmap back.
set_free-set_used :
    (m : Pmm) (p : ℕ)
    → IsShaped m
    → p < m.total
    → bitmap_is_free m p ≡ true
    → (bitmap_set_free (bitmap_set_used m p) p).bitmap ≡ m.bitmap
set_free-set_used m p shape l f =
    let used = set_used-IsShaped m p shape l in
    let back = set_free-IsShaped (bitmap_set_used m p) p used l in
    Bitmap.eq_of_tests 64 (omega arith) (bitmap_set_free (bitmap_set_used m p) p).bitmap m.bitmap
      (back.size ∙ sym shape.size) back.words shape.words
      λ i. is_free-set_free (bitmap_set_used m p) p used l i ∙ (elim (Bool-cases (p == i)) [
        | inl e ↦ let e' : p ≡ i = ground arith in rw (e, ← e') (sym f)
        | inr e ↦ ground (arith, is_free-set_used m p shape l i)
      ])

free-taken :
    (m : Pmm) (p : ℕ) → IsValid m → IsLowest m p → p ≢ 0 → pmm_free_page (p * 4096) (taken m p) ≡ m
free-taken m p v l ne =
    let (v', t, pos) = taken-IsValid m p v l in
    let page : p * 4096 / 4096 ≡ p = omega arith in
    let used : bitmap_is_free (taken m p) p ≡ false =
      is_free-set_used m p v.shape l.inside p ∙ ground arith in
    let u : IsUsedPage (taken m p) (p * 4096) = record {
      not_null = omega arith;
      aligned = omega arith;
      inside = omega (arith, l.inside);
      used = ap (bitmap_is_free (taken m p)) page ∙ used;
    } in
    let counter : m.free - 1 + 1 ≡ m.free = omega arith in
    (pmm_free_page-IsValid (taken m p) (p * 4096) v' u).0 ∙ ap (released (taken m p)) page ∙ (λ i.
      record m { bitmap = set_free-set_used m p v.shape l.inside l.is_free i; free = counter i })

-- Giving back the page that `pmm_alloc_page` has just returned restores the whole state, if its
-- address is not 0, which is NULL.
pub free-alloc :
    (m m' : Pmm) (addr : ℕ)
    → IsValid m
    → pmm_alloc_page m ≡ some (some addr, m')
    → addr ≢ 0
    → pmm_free_page addr m' ≡ m
free-alloc m m' addr v e ne = elim (pmm_alloc_page-cases m v) [
  | inl (z, q) ↦ absurd (cc)
  | inr (p, l, q, v', pos) ↦
      let a : p * 4096 ≡ addr = cc in
      let s : taken m p ≡ m' = cc in rw (← a, ← s) (free-taken m p v l (λ z. ne (omega arith)))
]

-- Nothing guards the reserved pages: right after `pmm_init`, giving back any page in use but page 0
-- makes `pmm_get_used_count` wrap round to 2 ^ 64 - 1.
pub free_reserved_wraps :
    (kernel_start kernel_end mem_top addr : ℕ)
    → IsUsedPage (pmm_init kernel_start kernel_end mem_top) addr
    → pmm_get_used_count (pmm_free_page addr (pmm_init kernel_start kernel_end mem_top))
      ≡ 2 ^ 64 - 1
unfolding pmm_get_used_count
free_reserved_wraps kernel_start kernel_end mem_top addr u =
    let m = pmm_init kernel_start kernel_end mem_top in
    let b = (pmm_init-IsBalanced kernel_start kernel_end mem_top).0 in
    rw ((pmm_free_page-IsValid m addr b.valid u).0) (omega (arith, b.balanced, b.valid.shape.limit))
