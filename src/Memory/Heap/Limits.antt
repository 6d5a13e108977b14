-- ===== src/Memory/Heap/Limits.antt =====
-- Requests so large that their rounding wraps around.
use ares_os.Prelude.{ℕ, ◌+◌, ◌-◌, ◌%◌, ◌^◌, ◌<◌, ◌≡◌, refl, ap, ◌∙◌, some, true, arith, bit_and}
use ares_os.Prelude.Word.{bit_and_high}
use ares_os.Memory.Pmm.{kernel_heap_start, kernel_heap_initial_size}
use ares_os.Memory.Heap.{
  header_size, heap_align, Headers, Heap, fuel, align_up, heap_init, take_block, kmalloc,
  kmalloc_loop,
}
use ares_os.Memory.Heap.Cells.{Cell, heap_init-IsHeap}
use ares_os.Memory.Heap.Malloc.{kmalloc-run, kmalloc_loop-take}
use ares_os.Memory.Heap.Split.{take_block-header}

align_up_wraps : (n : ℕ) → 2 ^ 64 - 16 < n → n < 2 ^ 64 → align_up n heap_align ≡ 0
unfolding align_up
align_up_wraps n l h =
    let wrapped : (n + 16 + 2 ^ 64 - 1) % 2 ^ 64 ≡ n + 15 - 2 ^ 64 = omega arith in
    omega (
      arith,
      ap (λ t. bit_and t (2 ^ 64 - 16)) wrapped,
      bit_and_high (n + 15 - 2 ^ 64) (omega arith),
    )

-- A request of more than 2^64 - 16 bytes succeeds on a fresh heap, with a block of no bytes: its size is
-- rounded up to 0.
pub kmalloc_wraps :
    (n : ℕ) (s : Heap)
    → 2 ^ 64 - 16 < n
    → n < 2 ^ 64
    → (t : Heap) × ((kmalloc n (heap_init s) ≡ some (kernel_heap_start + header_size, t))
        × ((t.at kernel_heap_start).size ≡ 0))
kmalloc_wraps n s l h =
    let w = heap_init-IsHeap s in
    let c : Cell = record { size = kernel_heap_initial_size - header_size; free = true } in
    let at : Headers = (heap_init s).at in
    let a : ℕ = kernel_heap_start in
    let taken : Headers = take_block 0 a at in
    let zero_want = align_up_wraps n l h in
    (
      record (heap_init s) { at = taken },
      (
        kmalloc-run n (heap_init s) (a + header_size) taken (omega arith) w.head (
            ap (λ t. kmalloc_loop fuel t a at) zero_want
            ∙ kmalloc_loop-take 131072 0 a 0 at c (omega arith) w.chain.1.0 refl),
        ap (λ (t : Headers). (t a).size) (take_block-header at a 0 c 0 w.chain.1.0),
      ),
    )
