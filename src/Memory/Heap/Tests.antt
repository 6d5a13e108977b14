-- ===== src/Memory/Heap/Tests.antt =====
-- The theorems on the heap at a fresh heap, and at one that is wholly in use.
use ares_os.Prelude.{ℕ, ◌+◌, ◌-◌, ◌*◌, ◌^◌, ◌≡◌, refl, true, false, some, [], ◌∷◌, arith}
use ares_os.Memory.Pmm.{kernel_heap_start, kernel_heap_initial_size}
use ares_os.Memory.Heap.{Heap, header_size, heap_init, kmalloc, kfree, heap_stats}
use ares_os.Memory.Heap.Cells.{Cell, IsHeap, header, heap_init-IsHeap}
use ares_os.Memory.Heap.Malloc.{Serves, kmalloc-IsHeap}
use ares_os.Memory.Heap.Free.{merge, kfree-IsHeap}
use ares_os.Memory.Heap.Stats.{heap_stats-sums}
use ares_os.Memory.Heap.Limits.{kmalloc_wraps}

abbrev whole : Cell
whole = record { size = 4194272; free = true }

abbrev filled : Cell
filled = record { size = 4194272; free = false }

abbrev before_boot : Heap
before_boot = record { heap_head = 0; at = λ (a : ℕ). header filled 0; bytes = λ (a : ℕ). 0 }

abbrev in_use : Heap
in_use = record before_boot { heap_head = kernel_heap_start }

in_use-IsHeap : IsHeap in_use (filled ∷ [])
in_use-IsHeap = record { head = refl; chain = (omega arith, (refl, refl)); tiles = refl }

kmalloc-IsHeap_example : Serves 100 (heap_init before_boot) (whole ∷ [])
kmalloc-IsHeap_example =
    kmalloc-IsHeap 100 (heap_init before_boot) (whole ∷ []) (omega arith)
      (heap_init-IsHeap before_boot)

kfree-IsHeap_example :
    (t : Heap) × ((kfree (kernel_heap_start + 0 + header_size) in_use ≡ some t)
      × (IsHeap t (merge 4194272 []) × (kfree (kernel_heap_start + 0 + header_size) t ≡ some t)))
kfree-IsHeap_example = kfree-IsHeap in_use [] filled [] in_use-IsHeap refl

heap_stats-sums_example :
    (heap_stats in_use ≡ some (record { used = 4194272; free = 0; largest = 0 }))
    × (4194272 + 0 + header_size * 1 ≡ kernel_heap_initial_size)
heap_stats-sums_example = heap_stats-sums in_use (filled ∷ []) in_use-IsHeap

kmalloc_wraps_example :
    (t : Heap) × ((kmalloc (2 ^ 64 - 1) (heap_init before_boot)
        ≡ some (kernel_heap_start + header_size, t))
      × ((t.at kernel_heap_start).size ≡ 0))
kmalloc_wraps_example = kmalloc_wraps (2 ^ 64 - 1) before_boot (omega arith) (omega arith)
