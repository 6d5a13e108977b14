-- ===== src/Memory/Pmm.antt =====
-- memory/pmm.c: the allocator of 4 KiB physical pages over a bitmap of 256 words of 64 bits, where
-- a set bit is a free page. The static variables are the fields of `Pmm`; a function that changes
-- them returns the new state. `x >> 6` and `x & 63` are written `/ 64` and `% 64`, inside `Bitmap`.
-- The loop that looks for the lowest set bit runs on fuel, 64 rounds for a word of 64 bits; `none`
-- at the outside of a result means that the fuel ran out, and `pmm_alloc_page-IsLowest` of Pmm/Alloc shows
-- that it does not. The linker's `_kernel_start` and `_kernel_end` are arguments.
pub mod Inv
pub mod Init
pub mod Alloc
pub mod Free
pub mod Drain
mod Tests
use ares_os.Prelude.{
  ℕ, zero, suc, ◌+◌, ◌-◌, ◌*◌, ◌/◌, ◌%◌, ◌^◌, Bool, true, false, Option, none, some, List, ltb, leb,
  ◌==◌, if◌then◌else◌, get_or, replicate, bit_and, not,
}
use ares_os.Prelude.Bitmap
use ares_os.Prelude.Lowest.{first_set}

abbrev pub page_size : ℕ
page_size = 4096

abbrev pub pmm_total_pages : ℕ
pmm_total_pages = 0x4000000 / page_size

abbrev pub pmm_bitmap_words : ℕ
pmm_bitmap_words = pmm_total_pages / 64

abbrev pub kernel_heap_start : ℕ
kernel_heap_start = 0x200000

abbrev pub kernel_heap_initial_size : ℕ
kernel_heap_initial_size = 0x400000

pub record Pmm : Type 0 where
  pub bitmap : List ℕ
  pub total : ℕ
  pub free : ℕ
  pub reserved : ℕ

-- `x++` and `x--` on `uint64_t`
abbrev pub inc64 : ℕ → ℕ
inc64 x = (x + 1) % 2 ^ 64

abbrev pub dec64 : ℕ → ℕ
dec64 x = (x + 2 ^ 64 - 1) % 2 ^ 64

abbrev pub bitmap_set_free : Pmm → ℕ → Pmm
bitmap_set_free m i = record m { bitmap = Bitmap.set_one 64 m.bitmap i }

abbrev pub bitmap_set_used : Pmm → ℕ → Pmm
bitmap_set_used m i = record m { bitmap = Bitmap.set_zero 64 m.bitmap i }

abbrev pub bitmap_is_free : Pmm → ℕ → Bool
bitmap_is_free m i = Bitmap.test 64 m.bitmap i

-- the body of the loop of `mark_range_used`
pub mark_page : Pmm → ℕ → Pmm
mark_page m i =
    if bitmap_is_free m i
    then record (bitmap_set_used m i) { free = dec64 m.free; reserved = inc64 m.reserved }
    else m

-- `for (; i < e && i < pmm_total_pages; i++)`, with `n` the rounds up to `e`
pub mark_pages : ℕ → ℕ → Pmm → Pmm
mark_pages zero i m = m
mark_pages (suc n) i m = if ltb i m.total then mark_pages n (i + 1) (mark_page m i) else m

abbrev pub first_page : ℕ → ℕ
first_page start = start / page_size

abbrev pub end_page : ℕ → ℕ
end_page end = ((end + page_size + 2 ^ 64 - 1) % 2 ^ 64) / page_size

pub mark_range_used : ℕ → ℕ → Pmm → Pmm
mark_range_used start end m = mark_pages (end_page end - first_page start) (first_page start) m

-- `for (i = 0; i < pmm_total_pages; i++) { bitmap_set_free(i); pmm_free_pages++; }`
pub release_pages : ℕ → ℕ → Pmm → Pmm
release_pages zero i m = m
release_pages (suc n) i m =
    release_pages n (i + 1) (record (bitmap_set_free m i) { free = inc64 m.free })

abbrev pub page_limit : ℕ → ℕ
page_limit mem_top =
    let total = mem_top / page_size in if ltb pmm_total_pages total then pmm_total_pages else total

abbrev pub cleared : ℕ → Pmm
cleared mem_top = record {
  bitmap = replicate pmm_bitmap_words 0;
  total = page_limit mem_top;
  free = 0;
  reserved = 0;
}

pub pmm_init : (kernel_start kernel_end mem_top : ℕ) → Pmm
pmm_init kernel_start kernel_end mem_top =
    let m = release_pages (page_limit mem_top) 0 (cleared mem_top) in
    let m = mark_range_used 0 0x100000 m in
    let m = mark_range_used 0xB8000 0xC0000 m in
    let m = mark_range_used kernel_start kernel_end m in
    mark_range_used kernel_heap_start (kernel_heap_start + kernel_heap_initial_size) m

-- the end of the loop's body, at the page that was found
pub take_page : ℕ → Pmm → Option ℕ × Pmm
take_page i m =
    if leb m.total i
    then (none, m)
    else (some (i * page_size), record (bitmap_set_used m i) { free = dec64 m.free })

-- `for (; w < PMM_BITMAP_WORDS; w++)`, with the rounds left
pub scan_words : ℕ → ℕ → Pmm → Option (Option ℕ × Pmm)
scan_words zero w m = some (none, m)
scan_words (suc n) w m =
    let word = get_or m.bitmap w 0 in
    let rest = scan_words n (w + 1) m in
    if word == 0
    then rest
    else elim (first_set 64 word 0) [ none ↦ none | some b ↦ some (take_page (w * 64 + b) m) ]

pub pmm_alloc_page : Pmm → Option (Option ℕ × Pmm)
unfolding scan_words
pmm_alloc_page m = scan_words pmm_bitmap_words 0 m

-- `NULL` is the address 0. `addr & (PAGE_SIZE - 1)` is `addr % PAGE_SIZE`.
pub pmm_free_page : ℕ → Pmm → Pmm
pmm_free_page addr m =
    let i = addr / page_size in
    if addr == 0
    then m
    else if not (addr % page_size == 0)
    then m
    else if leb m.total i
    then m
    else if bitmap_is_free m i
    then m
    else record (bitmap_set_free m i) { free = inc64 m.free }

pub pmm_get_free_count : Pmm → ℕ
pmm_get_free_count m = m.free

-- two subtractions on `uint64_t`
pub pmm_get_used_count : Pmm → ℕ
pmm_get_used_count m = (m.total + 2 ^ 64 - m.free + 2 ^ 64 - m.reserved) % 2 ^ 64
