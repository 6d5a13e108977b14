-- ===== src/Memory/Pmm/Init.antt =====
-- `pmm_init`: which pages are free after boot, and what the counters say.
use ares_os.Prelude.{
  ℕ, zero, suc, ◌+◌, ◌-◌, ◌*◌, ◌/◌, ◌≤◌, ◌<◌, ◌^◌, ◌≡◌, refl, ◌∙◌, sym, Bool, false, arith, not,
  ◌&&◌, ◌||◌, ◌==◌, ltb, leb, inl, inr, Bool-cases, get_or-replicate, length-replicate, min,
}
use mathlib.Core.Path.{subst}
use ares_os.Prelude.Bitmap
use ares_os.Prelude.Word.{zero-bit}
use ares_os.Prelude.Count.{count_all}
use ares_os.Memory.Pmm.{
  Pmm, bitmap_is_free, bitmap_set_free, mark_page, mark_pages, mark_range_used, release_pages,
  pmm_init, page_limit, cleared, first_page, end_page, inc64, pmm_bitmap_words,
}
use ares_os.Memory.Pmm.Inv.{
  IsShaped, IsValid, is_free-set_used, is_free-set_free, set_used-IsShaped, set_free-IsShaped,
  count-set_used, free-le-total,
}

-- Every page is free, or reserved, and counted as such.
pub record IsBalanced (m : Pmm) : Type 0 where
  pub valid : IsValid m
  pub balanced : m.free + m.reserved ≡ m.total

module _ (m : Pmm) (i : ℕ) (b : IsBalanced m) (inside : i < m.total) where
  is_free-mark_page :
      (j : ℕ) → bitmap_is_free (mark_page m i) j ≡ (not (i == j) && bitmap_is_free m j)
  unfolding mark_page
  is_free-mark_page j = elim (Bool-cases (bitmap_is_free m i)) [
    | inl f ↦ rw f (is_free-set_used m i b.valid.shape inside j)
    | inr f ↦ rw f (elim (Bool-cases (i == j)) [
      | inl e ↦ let e' : i ≡ j = ground arith in rw (e, ← e') f
      | inr e ↦ rw e
    ])
  ]

  total-mark_page : (mark_page m i).total ≡ m.total
  unfolding mark_page
  total-mark_page = ground arith

  mark_page-IsBalanced : IsBalanced (mark_page m i)
  unfolding mark_page
  mark_page-IsBalanced = elim (Bool-cases (bitmap_is_free m i)) [
    | inl f ↦
        let c = count-set_used m i b.valid.shape inside f in
        let l = free-le-total m b.valid in
        let shape = set_used-IsShaped m i b.valid.shape inside in
        rw f (record {
          valid = record {
            shape = record {
              size = shape.size;
              words = shape.words;
              limit = shape.limit;
              outside = shape.outside;
            };
            counted = omega (arith, b.valid.counted, b.valid.shape.limit);
          };
          balanced = omega (arith, b.valid.counted, b.balanced, b.valid.shape.limit);
        })
    | inr f ↦ rw f b
  ]

-- The pages from `i` on, `n` of them.
abbrev within : ℕ → ℕ → ℕ → Bool
within i n j = leb i j && ltb j (i + n)

-- The loop clears the range, and keeps the balance.
mark_pages_lem :
    (n i : ℕ) (m : Pmm)
    → IsBalanced m
    → IsBalanced (mark_pages n i m)
      × ((mark_pages n i m).total ≡ m.total)
      × ((j : ℕ) → bitmap_is_free (mark_pages n i m) j ≡ (bitmap_is_free m j && not (within i n j)))
unfolding mark_pages
mark_pages_lem zero i m b = (b, refl, λ j. ground arith)
mark_pages_lem (suc n) i m b = elim (Bool-cases (ltb i m.total)) [
  | inl h ↦
      let inside : i < m.total = ground arith in
      let (b', t, f) =
        mark_pages_lem n (i + 1) (mark_page m i) (mark_page-IsBalanced m i b inside) in
      rw h (
        b',
        t ∙ total-mark_page m i b inside,
        λ j. ground (arith, f j, is_free-mark_page m i b inside j),
      )
  | inr h ↦ rw h (b, refl, λ j. ground (arith, b.valid.shape.outside j))
]

abbrev covers : ℕ → ℕ → ℕ → Bool
covers start end j = leb (first_page start) j && ltb j (end_page end)

mark_range_used_lem :
    (start end : ℕ) (m : Pmm)
    → IsBalanced m
    → IsBalanced (mark_range_used start end m)
      × ((mark_range_used start end m).total ≡ m.total)
      × ((j : ℕ)
          → bitmap_is_free (mark_range_used start end m) j
            ≡ (bitmap_is_free m j && not (covers start end j)))
unfolding mark_range_used
mark_range_used_lem start end m b =
    let (b', t, f) = mark_pages_lem (end_page end - first_page start) (first_page start) m b in
    (b', t, λ j. ground (arith, f j))

-- What the first loop of `pmm_init` keeps: the pages below `i` are free, and `free` is `i`.
record IsReleased (i : ℕ) (m : Pmm) : Type 0 where
  shape : IsShaped m
  upto : (j : ℕ) → bitmap_is_free m j ≡ ltb j i
  counter : m.free ≡ i
  none_reserved : m.reserved ≡ 0

release_pages_lem :
    (n i : ℕ) (m : Pmm)
    → IsReleased i m
    → i + n ≡ m.total
    → IsReleased m.total (release_pages n i m) × ((release_pages n i m).total ≡ m.total)
unfolding release_pages
release_pages_lem zero i m r e =
    let e' : i ≡ m.total = omega arith in (subst (λ t. IsReleased t m) e' r, refl)
release_pages_lem (suc n) i m r e =
    let inside : i < m.total = omega arith in
    let shape = set_free-IsShaped m i r.shape inside in
    release_pages_lem n (i + 1) (record (bitmap_set_free m i) { free = inc64 m.free })
      (record {
        shape = record {
          size = shape.size;
          words = shape.words;
          limit = shape.limit;
          outside = shape.outside;
        };
        upto = λ j. ground (arith, is_free-set_free m i r.shape inside j, r.upto j);
        counter = omega (arith, r.counter, r.shape.limit);
        none_reserved = r.none_reserved;
      })
      (omega arith)

cleared_none : (mem_top j : ℕ) → bitmap_is_free (cleared mem_top) j ≡ false
unfolding Bitmap.test
cleared_none mem_top j = rw (get_or-replicate {A = ℕ} pmm_bitmap_words 0 (j / 64)) (zero-bit _)

cleared-IsReleased : (mem_top : ℕ) → IsReleased 0 (cleared mem_top)
cleared-IsReleased mem_top = record {
  shape = record {
    size = length-replicate {A = ℕ} pmm_bitmap_words 0;
    words = λ k. rw (get_or-replicate {A = ℕ} pmm_bitmap_words 0 k) (omega arith);
    limit = ground arith;
    outside = λ j h. cleared_none mem_top j;
  };
  upto = λ j. cleared_none mem_top j ∙ ground arith;
  counter = refl;
  none_reserved = refl;
}

IsReleased-IsBalanced : (m : Pmm) → IsReleased m.total m → IsBalanced m
IsReleased-IsBalanced m r = record {
  valid = record {
    shape = r.shape;
    counted =
        r.counter ∙ sym (count_all (bitmap_is_free m) m.total (λ j l. ground (arith, r.upto j)));
  };
  balanced = omega (arith, r.counter, r.none_reserved);
}

-- Page `j` has a byte in the range [start, end).
abbrev pub overlaps : ℕ → ℕ → ℕ → Bool
overlaps start end j = ltb start ((j + 1) * 4096) && ltb (j * 4096) end

covers-eq-overlaps :
    (start end j : ℕ) → end + 4096 ≤ 2 ^ 64 → covers start end j ≡ overlaps start end j
covers-eq-overlaps start end j h = ground arith

-- The pages that `pmm_init` keeps back.
abbrev pub is_kept_back : ℕ → ℕ → ℕ → Bool
is_kept_back kernel_start kernel_end j =
    overlaps 0 0x100000 j || overlaps kernel_start kernel_end j || overlaps 0x200000 0x600000 j

abbrev Initialised : ℕ → ℕ → ℕ → Pmm → Type 0
Initialised kernel_start kernel_end mem_top m =
    IsBalanced m
    × (m.total ≡ page_limit mem_top)
    × ((j : ℕ)
        → bitmap_is_free m j ≡ (
            ltb j (page_limit mem_top)
            && not (covers 0 0x100000 j)
            && not (covers 0xB8000 0xC0000 j)
            && not (covers kernel_start kernel_end j)
            && not (covers 0x200000 0x600000 j)))

pmm_init-Initialised :
    (kernel_start kernel_end mem_top : ℕ)
    → Initialised kernel_start kernel_end mem_top (pmm_init kernel_start kernel_end mem_top)
unfolding pmm_init
pmm_init-Initialised kernel_start kernel_end mem_top =
    let (r, t0) =
      release_pages_lem (page_limit mem_top) 0 (cleared mem_top) (cleared-IsReleased mem_top)
        (omega arith) in
    let m0 = release_pages (page_limit mem_top) 0 (cleared mem_top) in
    let b0 : IsBalanced m0 = IsReleased-IsBalanced m0 (subst (λ t. IsReleased t m0) (sym t0) r) in
    let (b1, t1, f1) = mark_range_used_lem 0 0x100000 m0 b0 in
    let m1 = mark_range_used 0 0x100000 m0 in
    let (b2, t2, f2) = mark_range_used_lem 0xB8000 0xC0000 m1 b1 in
    let m2 = mark_range_used 0xB8000 0xC0000 m1 in
    let (b3, t3, f3) = mark_range_used_lem kernel_start kernel_end m2 b2 in
    let m3 = mark_range_used kernel_start kernel_end m2 in
    let (b4, t4, f4) = mark_range_used_lem 0x200000 0x600000 m3 b3 in
    (b4, t4 ∙ t3 ∙ t2 ∙ t1 ∙ t0, λ j. f4 j ∙ ground (arith, f3 j, f2 j, f1 j, r.upto j))

-- `pmm_init` leaves the allocator valid for every memory size and kernel image: the counter of free
-- pages is the number of set bits, and with the reserved pages it makes up the total, which is
-- the memory size in pages, at most 16384.
pub pmm_init-IsBalanced :
    (kernel_start kernel_end mem_top : ℕ)
    → IsBalanced (pmm_init kernel_start kernel_end mem_top)
      × ((pmm_init kernel_start kernel_end mem_top).total ≡ min (mem_top / 4096) 16384)
pmm_init-IsBalanced kernel_start kernel_end mem_top =
    let (b, t, f) = pmm_init-Initialised kernel_start kernel_end mem_top in (b, t ∙ ground arith)

-- After `pmm_init` the free pages are exactly those below the total that have no byte in the first
-- MiB, in the kernel image or in the heap window, if the kernel image does not end within
-- the last page of the address space.
pub is_free-pmm_init :
    (kernel_start kernel_end mem_top j : ℕ)
    → kernel_end + 4096 ≤ 2 ^ 64
    → bitmap_is_free (pmm_init kernel_start kernel_end mem_top) j
      ≡ (ltb j (min (mem_top / 4096) 16384) && not (is_kept_back kernel_start kernel_end j))
is_free-pmm_init kernel_start kernel_end mem_top j h =
    let (b, t, f) = pmm_init-Initialised kernel_start kernel_end mem_top in
    f j
    ∙ rw (covers-eq-overlaps kernel_start kernel_end j h) (parts j kernel_start kernel_end mem_top)
  where
    parts :
        (j s e top : ℕ)
        → (ltb j (page_limit top)
            && not (covers 0 0x100000 j)
            && not (covers 0xB8000 0xC0000 j)
            && not (overlaps s e j)
            && not (covers 0x200000 0x600000 j))
          ≡ (ltb j (min (top / 4096) 16384) && not (is_kept_back s e j))
    parts j s e top = ground arith
