-- ===== src/Memory/Heap.antt =====
-- memory/heap.c: the kernel heap. The headers are a store from addresses to records, apart from the
-- bytes of the payloads, so that a program that writes past the end of its payload is out of the
-- model. NULL is address 0, and `free` is a Boolean. The loops run on fuel, one round more than the
-- window has room for headers; `none` means that the fuel ran out, and Heap/Cells shows that it
-- does not.
pub mod Cells
pub mod Split
pub mod Malloc
pub mod Free
pub mod Stats
pub mod Limits
mod Tests
use ares_os.Prelude.{
  ℕ, zero, suc, ◌+◌, ◌-◌, ◌*◌, ◌/◌, ◌%◌, ◌^◌, Bool, true, false, not, ◌||◌, Option, none, some,
  ◌==◌, leb, ltb, if◌then◌else◌, bit_and,
}
use ares_os.Memory.Pmm.{kernel_heap_start, kernel_heap_initial_size}

abbrev pub heap_magic : ℕ
heap_magic = 0xA55A5A55

abbrev pub heap_align : ℕ
heap_align = 16

-- `sizeof(struct heap_block)`
abbrev pub header_size : ℕ
header_size = 32

pub record HeapBlock : Type 0 where
  pub size : ℕ
  pub magic : ℕ
  pub next : ℕ
  pub free : Bool

abbrev pub Headers : Type 0
Headers = ℕ → HeapBlock

pub record Heap : Type 0 where
  pub heap_head : ℕ
  pub at : Headers
  pub bytes : ℕ → ℕ

abbrev pub put : Headers → ℕ → HeapBlock → Headers
put h a b k = if k == a then b else h k

abbrev pub fuel : ℕ
fuel = kernel_heap_initial_size / header_size + 1

pub align_up : ℕ → ℕ → ℕ
align_up n a = bit_and ((n + a + 2 ^ 64 - 1) % 2 ^ 64) (2 ^ 64 - 1 - (a - 1))

abbrev pub block_from_payload : ℕ → ℕ
block_from_payload ptr = (ptr + 2 ^ 64 - header_size) % 2 ^ 64

abbrev pub payload_of : ℕ → ℕ
payload_of b = b + header_size

pub heap_init : Heap → Heap
heap_init s = record s {
  heap_head = kernel_heap_start;
  at = put s.at kernel_heap_start (record {
    size = kernel_heap_initial_size - header_size;
    magic = heap_magic;
    next = 0;
    free = true;
  });
}

-- The split of the block at `b`, when it is large enough, and its mark.
pub take_block : (want b : ℕ) → Headers → Headers
take_block want b h =
    let x = h b in
    let remainder = x.size - want in
    let tail = payload_of b + want in
    if ltb (header_size + heap_align) remainder
    then put
        (put h tail (record {
          size = remainder - header_size;
          magic = heap_magic;
          next = x.next;
          free = true;
        }))
        b (record x { size = want; next = tail; free = false })
    else put h b (record x { free = false })

-- the loop of kmalloc
pub kmalloc_loop : ℕ → (want b : ℕ) → Headers → Option (ℕ × Headers)
kmalloc_loop zero want b h = none
kmalloc_loop (suc k) want b h = elim (b == 0) [
  | true ↦ some (0, h)
  | false ↦ elim (not ((h b).magic == heap_magic)) [
    | true ↦ some (0, h)
    | false ↦ elim (not (h b).free || ltb (h b).size want) [
      | true ↦ kmalloc_loop k want (h b).next h
      | false ↦ some (payload_of b, take_block want b h)
    ]
  ]
]

pub kmalloc : (size : ℕ) → Heap → Option (ℕ × Heap)
kmalloc size s =
    if (size == 0) || (s.heap_head == 0)
    then some (0, s)
    else elim (kmalloc_loop fuel (align_up size heap_align) s.heap_head s.at) [
      | none ↦ none
      | some r ↦ some (r.0, record s { at = r.1 })
    ]

-- the loop of kfree
pub coalesce : ℕ → (b : ℕ) → Headers → Option Headers
coalesce zero b h = none
coalesce (suc k) b h = elim ((h b).next == 0) [
  | true ↦ some h
  | false ↦ elim (h (h b).next).free [
    | false ↦ some h
    | true ↦ elim ((h (h b).next).magic == heap_magic) [
      | false ↦ some h
      | true ↦
          let x = h b in
          let y = h x.next in
          coalesce k b
            (put h b (record x { size = (x.size + header_size + y.size) % 2 ^ 64; next = y.next }))
    ]
  ]
]

pub kfree : (ptr : ℕ) → Heap → Option Heap
kfree ptr s =
    let b = block_from_payload ptr in
    if ptr == 0
    then some s
    else if not ((s.at b).magic == heap_magic)
    then some s
    else if (s.at b).free
    then some s
    else elim (coalesce fuel b (put s.at b (record (s.at b) { free = true }))) [
      | none ↦ none
      | some h ↦ some (record s { at = h })
    ]

-- `for (; i < b->size; i++) dst[i] = src[i];` with the rounds left
pub copy_bytes : ℕ → (i src dst : ℕ) → (ℕ → ℕ) → ℕ → ℕ
copy_bytes zero i src dst m = m
copy_bytes (suc n) i src dst m =
    copy_bytes n (i + 1) src dst (λ (k : ℕ). if k == dst + i then m (src + i) else m k)

-- The move of a payload to a new block.
pub move_payload : (ptr fresh : ℕ) → Heap → Option (ℕ × Heap)
move_payload ptr fresh s =
    let n = (s.at (block_from_payload ptr)).size in
    elim (kfree ptr (record s { bytes = copy_bytes n 0 ptr fresh s.bytes })) [
      | none ↦ none
      | some t ↦ some (fresh, t)
    ]

pub krealloc : (ptr new_size : ℕ) → Heap → Option (ℕ × Heap)
krealloc ptr new_size s =
    if ptr == 0
    then kmalloc new_size s
    else if new_size == 0
    then elim (kfree ptr s) [ none ↦ none | some t ↦ some (0, t) ]
    else if not ((s.at (block_from_payload ptr)).magic == heap_magic)
    then some (0, s)
    else if leb new_size (s.at (block_from_payload ptr)).size
    then some (ptr, s)
    else elim (kmalloc new_size s) [
      | none ↦ none
      | some r ↦ if r.0 == 0 then some (0, r.1) else move_payload ptr r.0 r.1
    ]

pub record HeapStats : Type 0 where
  pub used : ℕ
  pub free : ℕ
  pub largest : ℕ

-- the body of the loop of heap_stats
pub count_block : HeapBlock → HeapStats → HeapStats
count_block b t =
    if b.free
    then record t {
      free = (t.free + b.size) % 2 ^ 64;
      largest = if ltb t.largest b.size then b.size else t.largest;
    }
    else record t { used = (t.used + b.size) % 2 ^ 64 }

pub stats_loop : ℕ → (b : ℕ) → Headers → HeapStats → Option HeapStats
stats_loop zero b h t = none
stats_loop (suc k) b h t = elim (b == 0) [
  | true ↦ some t
  | false ↦ elim ((h b).magic == heap_magic) [
    | false ↦ some t
    | true ↦ stats_loop k (h b).next h (count_block (h b) t)
  ]
]

pub heap_stats : Heap → Option HeapStats
heap_stats s = stats_loop fuel s.heap_head s.at (record { used = 0; free = 0; largest = 0 })
