-- ===== src/Memory/Pmm/Tests.antt =====
-- The theorems on the page allocator at concrete states, and runs of its functions.
use ares_os.Prelude.{
  ℕ, ◌+◌, ◌-◌, ◌*◌, ◌<◌, ◌^◌, ◌≡◌, refl, true, arith, some, List, length, Distinct, All,
}
use ares_os.Prelude.Bitmap
use ares_os.Prelude.Lowest.{first_set}
use ares_os.Prelude.Word.{bit, set_bit, clear_bit}
use ares_os.Memory.Pmm.{
  Pmm, bitmap_is_free, pmm_init, pmm_alloc_page, pmm_free_page, pmm_get_used_count, mark_range_used,
  release_pages, take_page, mark_pages, mark_page,
}
use ares_os.Memory.Pmm.Inv.{IsValid}
use ares_os.Memory.Pmm.Init.{IsBalanced, pmm_init-IsBalanced, is_free-pmm_init}
use ares_os.Memory.Pmm.Alloc.{IsLowest, taken, pmm_alloc_page-IsLowest}
use ares_os.Memory.Pmm.Free.{
  IsUsedPage, released, pmm_free_page-IsValid, free-alloc, free_reserved_wraps,
}
use ares_os.Memory.Pmm.Drain.{IsFreeAddress, alloc_pages, alloc_pages-Distinct}

-- a kernel image of 64 KiB at 1 MiB
abbrev boot : ℕ → Pmm
boot mem_top = pmm_init 0x100000 0x110000 mem_top

-- 0x108 pages of memory: 0x110 to 0x118 would follow the image
abbrev top : ℕ
top = 0x118000

boot-IsValid : IsValid (boot top)
boot-IsValid = (pmm_init-IsBalanced 0x100000 0x110000 top).0.valid

boot_free : (boot top).free ≡ 8
unfolding pmm_init mark_range_used mark_pages mark_page release_pages Bitmap.test Bitmap.set_one
    Bitmap.set_zero bit set_bit clear_bit
boot_free = refl

boot_has_pages : 0 < (boot top).free
boot_has_pages = omega (arith, boot_free)

-- the first page behind the image
next_page : bitmap_is_free (boot top) 0x110 ≡ true
next_page = is_free-pmm_init 0x100000 0x110000 top 0x110 (omega arith)

pmm_init-IsBalanced_example : IsBalanced (boot top) × ((boot top).total ≡ 0x118)
pmm_init-IsBalanced_example = pmm_init-IsBalanced 0x100000 0x110000 top

pmm_alloc_page-IsLowest_example :
    (p : ℕ) × IsLowest (boot top) p
    × (pmm_alloc_page (boot top) ≡ some (some (p * 4096), taken (boot top) p))
    × IsValid (taken (boot top) p)
pmm_alloc_page-IsLowest_example = pmm_alloc_page-IsLowest (boot top) boot-IsValid boot_has_pages

-- one MiB of memory: all of it is reserved
small_boot_free : (boot 0x100000).free ≡ 0
unfolding pmm_init mark_range_used mark_pages mark_page release_pages Bitmap.test Bitmap.set_one
    Bitmap.set_zero bit set_bit clear_bit
small_boot_free = refl

alloc_pages-Distinct_example :
    (xs : List ℕ) × (m' : Pmm) × (alloc_pages 3 (boot top) ≡ some (xs, m'))
    × (length xs ≡ 3)
    × Distinct xs
    × All (IsFreeAddress (boot top)) xs
    × (m'.free + 3 ≡ (boot top).free)
    × IsValid m'
alloc_pages-Distinct_example =
    alloc_pages-Distinct 3 (boot top) boot-IsValid (omega (arith, boot_free))

first_alloc : pmm_alloc_page (boot top) ≡ some (some 0x110000, taken (boot top) 0x110)
unfolding boot_free pmm_alloc_page first_set take_page
first_alloc = refl

free-alloc_example : pmm_free_page 0x110000 (taken (boot top) 0x110) ≡ boot top
free-alloc_example =
    free-alloc (boot top) (taken (boot top) 0x110) 0x110000 boot-IsValid first_alloc (omega arith)

-- the first page of the image
image_page : IsUsedPage (boot top) 0x100000
image_page = record {
  not_null = omega arith;
  aligned = omega arith;
  inside = omega (arith, (pmm_init-IsBalanced 0x100000 0x110000 top).1);
  used = is_free-pmm_init 0x100000 0x110000 top 0x100 (omega arith);
}

pmm_free_page-IsValid_example :
    (pmm_free_page 0x100000 (boot top) ≡ released (boot top) 0x100)
    × IsValid (released (boot top) 0x100)
pmm_free_page-IsValid_example = pmm_free_page-IsValid (boot top) 0x100000 boot-IsValid image_page

free_reserved_wraps_example : pmm_get_used_count (pmm_free_page 0x100000 (boot top)) ≡ 2 ^ 64 - 1
free_reserved_wraps_example = free_reserved_wraps 0x100000 0x110000 top 0x100000 image_page
