-- ===== src/Memory/Heap/Stats.antt =====
-- heap_stats against sums over the cells.
use ares_os.Prelude.{
  ℕ, zero, suc, ◌+◌, ◌*◌, ◌%◌, ◌^◌, ◌≤◌, ◌<◌, ◌≡◌, ap, ◌∙◌, true, false, some, List, [], ◌∷◌,
  length, ltb, ◌==◌, if◌then◌else◌, Bool-cases, inl, inr, arith,
}
use ares_os.Memory.Pmm.{kernel_heap_start, kernel_heap_initial_size}
use ares_os.Memory.Heap.{
  heap_magic, header_size, HeapBlock, Headers, Heap, fuel, HeapStats, count_block, stats_loop,
  heap_stats,
}
use ares_os.Memory.Heap.Cells.{Cell, total, header, follow, Chain, IsHeap, length-le-total}

abbrev pub used_bytes : List Cell → ℕ
used_bytes [] = 0
used_bytes (c ∷ cs) = let rest = used_bytes cs in if c.free then rest else c.size + rest

abbrev pub free_bytes : List Cell → ℕ
free_bytes [] = 0
free_bytes (c ∷ cs) = let rest = free_bytes cs in if c.free then c.size + rest else rest

-- The largest free cell, or `best` if none is larger.
abbrev pub largest_free : ℕ → List Cell → ℕ
largest_free best [] = best
largest_free best (c ∷ cs) =
    let better = largest_free c.size cs in
    let same = largest_free best cs in
    if c.free then if ltb best c.size then better else same else same

abbrev sums : HeapStats → List Cell → HeapStats
sums t cs = record {
  used = t.used + used_bytes cs;
  free = t.free + free_bytes cs;
  largest = largest_free t.largest cs;
}

-- Every byte of the cells is counted once.
pub used_bytes-free_bytes :
    (cs : List Cell) → used_bytes cs + free_bytes cs + header_size * length cs ≡ total cs
used_bytes-free_bytes [] = omega arith
used_bytes-free_bytes (c ∷ cs) = ground (arith, used_bytes-free_bytes cs)

count_block-sums :
    (c : Cell) (next : ℕ) (cs : List Cell) (t : HeapStats)
    → t.used + c.size < 2 ^ 64
    → t.free + c.size < 2 ^ 64
    → sums (count_block (header c next) t) cs ≡ sums t (c ∷ cs)
unfolding count_block
count_block-sums c next cs t h l = elim (Bool-cases c.free) [
  | inl idle ↦ rw idle (λ k. record {
    used = t.used + used_bytes cs;
    free =
        (let e : (t.free + c.size) % 2 ^ 64 + free_bytes cs ≡ t.free + (c.size + free_bytes cs) =
              omega arith in
            e)
          k;
    largest = best t.largest c.size cs k;
  })
  | inr used ↦ rw used (λ k. record {
    used =
        (let e : (t.used + c.size) % 2 ^ 64 + used_bytes cs ≡ t.used + (c.size + used_bytes cs) =
              omega arith in
            e)
          k;
    free = t.free + free_bytes cs;
    largest = largest_free t.largest cs;
  })
]
  where
    best :
        (b n : ℕ) (cs : List Cell)
        → largest_free (if ltb b n then n else b) cs
          ≡ (if ltb b n then largest_free n cs else largest_free b cs)
    best b n cs = elim (Bool-cases (ltb b n)) [ inl y ↦ rw y | inr y ↦ rw y ]

count_block-le :
    (c : Cell) (next : ℕ) (t : HeapStats)
    → t.used + c.size < 2 ^ 64
    → t.free + c.size < 2 ^ 64
    → ((count_block (header c next) t).used ≤ t.used + c.size)
      × ((count_block (header c next) t).free ≤ t.free + c.size)
unfolding count_block
count_block-le c next t h l = elim (Bool-cases c.free) [
  | inl f ↦ rw f (omega arith, omega arith)
  | inr f ↦ rw f (omega arith, omega arith)
]

stats_loop-sums :
    (k a : ℕ) (h : Headers) (cs : List Cell) (t : HeapStats)
    → Chain h a cs
    → length cs < k
    → t.used + total cs < 2 ^ 64
    → t.free + total cs < 2 ^ 64
    → stats_loop k a h t ≡ some (sums t cs)
unfolding stats_loop
stats_loop-sums zero a h cs t p l b b' = absurd (omega arith)
stats_loop-sums (suc k) a h [] t p l b b' =
    let end : (a == 0) ≡ true = ground arith in
    rw (end, stats_loop)
      (λ j. some (record {
        used = (let e : t.used ≡ t.used + 0 = omega arith in e) j;
        free = (let e : t.free ≡ t.free + 0 = omega arith in e) j;
        largest = t.largest;
      }))
stats_loop-sums (suc k) a h (c ∷ cs) t (n, (e, p)) l b b' =
    let next : ℕ = follow a c cs in
    let t' : HeapStats = count_block (header c next) t in
    let some_block : (a == 0) ≡ false = ground arith in
    let sound : ((h a).magic == heap_magic) ≡ true =
      ap (λ (x : HeapBlock). x.magic == heap_magic) e in
    let step : stats_loop k (h a).next h (count_block (h a) t) ≡ stats_loop k next h t' =
      ap (λ (x : HeapBlock). stats_loop k x.next h (count_block x t)) e in
    let (u, f) = count_block-le c next t (omega arith) (omega arith) in
    rw (some_block, sound, step, stats_loop)
      (stats_loop-sums k next h cs t' p (omega arith) (omega (arith, u)) (omega (arith, f))
        ∙ ap some (count_block-sums c next cs t (omega arith) (omega arith)))

-- On a heap that is tiled by `cs`: heap_stats ends, and answers the bytes of the cells in use, of the free
-- cells and of the largest free cell; with the headers they make up the window.
pub heap_stats-sums :
    (s : Heap) (cs : List Cell)
    → IsHeap s cs
    → (heap_stats s
        ≡ some (record { used = used_bytes cs; free = free_bytes cs; largest = largest_free 0 cs }))
      × (used_bytes cs + free_bytes cs + header_size * length cs ≡ kernel_heap_initial_size)
unfolding heap_stats
heap_stats-sums s cs w = (
  ap (λ t. stats_loop fuel t s.at (record { used = 0; free = 0; largest = 0 })) w.head
      ∙ stats_loop-sums fuel kernel_heap_start s.at cs (record { used = 0; free = 0; largest = 0 })
          w.chain (omega (arith, length-le-total cs, w.tiles)) (omega (arith, w.tiles))
          (omega (arith, w.tiles))
      ∙ λ j. some (record {
        used = (let e : 0 + used_bytes cs ≡ used_bytes cs = omega arith in e) j;
        free = (let e : 0 + free_bytes cs ≡ free_bytes cs = omega arith in e) j;
        largest = largest_free 0 cs;
      }),
  used_bytes-free_bytes cs ∙ w.tiles,
)
