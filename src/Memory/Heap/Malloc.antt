-- ===== src/Memory/Heap/Malloc.antt =====
-- kmalloc takes the first free cell that is large enough, and splits it.
use mathlib.Core.Path.{subst}
use ares_os.Prelude.{
  ℕ, zero, suc, ◌+◌, ◌-◌, ◌%◌, ◌^◌, ◌≤◌, ◌<◌, ◌≡◌, ◌≢◌, refl, sym, ap, ◌∙◌, true, false, not, ◌||◌,
  some, List, [], ◌∷◌, ◌++◌, All, length, length-append, ltb, ◌==◌, Bool-cases, ◌⊎◌, inl, inr,
  arith, bit_and,
}
use ares_os.Prelude.Word.{bit_and_high}
use ares_os.Memory.Pmm.{kernel_heap_start}
use ares_os.Memory.Heap.{
  heap_magic, header_size, heap_align, HeapBlock, Headers, Heap, fuel, payload_of, take_block,
  align_up, kmalloc_loop, kmalloc,
}
use ares_os.Memory.Heap.Cells.{
  Cell, total, header, follow, Chain, IsHeap, Chain-suffix, Chain-replace, length-le-total,
  total-append,
}
use ares_os.Memory.Heap.Split.{take_block-take_cell, take_cell, total-take_cell, Unfit}

kmalloc_loop-skip :
    (k want a next : ℕ) (h : Headers) (c : Cell)
    → a ≢ 0
    → h a ≡ header c next
    → Unfit want c
    → kmalloc_loop (suc k) want a h ≡ kmalloc_loop k want next h
unfolding kmalloc_loop
kmalloc_loop-skip k want a next h c n e u =
    let some_block : (a == 0) ≡ false = ground arith in
    let sound : not ((h a).magic == heap_magic) ≡ false =
      ap (λ (x : HeapBlock). not (x.magic == heap_magic)) e in
    let test : (not (h a).free || ltb (h a).size want) ≡ true =
      ap (λ (x : HeapBlock). not x.free || ltb x.size want) e ∙ u in
    let after : (h a).next ≡ next = ap (λ (x : HeapBlock). x.next) e in
    rw (some_block, sound, test, after, kmalloc_loop)

pub kmalloc_loop-take :
    (k want a next : ℕ) (h : Headers) (c : Cell)
    → a ≢ 0
    → h a ≡ header c next
    → (not c.free || ltb c.size want) ≡ false
    → kmalloc_loop (suc k) want a h ≡ some (payload_of a, take_block want a h)
unfolding kmalloc_loop
kmalloc_loop-take k want a next h c n e u =
    let some_block : (a == 0) ≡ false = ground arith in
    let sound : not ((h a).magic == heap_magic) ≡ false =
      ap (λ (x : HeapBlock). not (x.magic == heap_magic)) e in
    let test : (not (h a).free || ltb (h a).size want) ≡ false =
      ap (λ (x : HeapBlock). not x.free || ltb x.size want) e ∙ u in
    rw (some_block, sound, test, kmalloc_loop)

kmalloc_loop-end : (k want : ℕ) (h : Headers) → kmalloc_loop (suc k) want 0 h ≡ some (0, h)
unfolding kmalloc_loop
kmalloc_loop-end k want h = refl

-- Which cell a request is served from: the first that fits.
pub record Served (want : ℕ) (cs : List Cell) : Type 0 where
  pub pre : List Cell
  pub cell : Cell
  pub post : List Cell
  pub cells : cs ≡ pre ++ (cell ∷ post)
  pub passed : All (Unfit want) pre
  pub fits : (not cell.free || ltb cell.size want) ≡ false

abbrev later :
    (want : ℕ) (c : Cell) (cs : List Cell) → Unfit want c → Served want cs → Served want (c ∷ cs)
later want c cs u s = record {
  pre = c ∷ s.pre;
  cell = s.cell;
  post = s.post;
  cells = ap (λ t. c ∷ t) s.cells;
  passed = (u, s.passed);
  fits = s.fits;
}

abbrev LoopServes : (k want a : ℕ) → Headers → List Cell → Type 0
LoopServes k want a h cs =
    (All (Unfit want) cs × (kmalloc_loop k want a h ≡ some (0, h)))
    ⊎ ((s : Served want cs) × (kmalloc_loop k want a h
          ≡ some (payload_of (a + total s.pre), take_block want (a + total s.pre) h)))

-- the loop at a cell that does not fit
loop-later :
    (k want a : ℕ) (h : Headers) (c : Cell) (cs : List Cell)
    → Chain h a (c ∷ cs)
    → Unfit want c
    → LoopServes k want (follow a c cs) h cs
    → LoopServes (suc k) want a h (c ∷ cs)
loop-later k want a h c cs (n, (e, p)) u (inl none_fits) =
    inl ((u, none_fits.0), kmalloc_loop-skip k want a (follow a c cs) h c n e u ∙ none_fits.1)
loop-later k want a h c [] (n, (e, p)) u (inr r) =
    absurd (omega (arith, ap length r.0.cells, length-append r.0.pre (r.0.cell ∷ r.0.post)))
loop-later k want a h c (d ∷ cs) (n, (e, p)) u (inr r) =
    let place : a + header_size + c.size + total r.0.pre ≡ a + total (c ∷ r.0.pre) = omega arith in
    inr (
      later want c (d ∷ cs) u r.0,
      kmalloc_loop-skip k want a (follow a c (d ∷ cs)) h c n e u
          ∙ r.1
          ∙ ap (λ t. some (payload_of t, take_block want t h)) place,
    )

kmalloc_loop-Served :
    (k want a : ℕ) (h : Headers) (cs : List Cell)
    → Chain h a cs
    → length cs < k
    → LoopServes k want a h cs
kmalloc_loop-Served zero want a h cs p l = absurd (omega arith)
kmalloc_loop-Served (suc k) want a h [] p l = inl (tt, rw p (kmalloc_loop-end k want h))
kmalloc_loop-Served (suc k) want a h (c ∷ cs) p l =
    elim (Bool-cases (not c.free || ltb c.size want)) [
      | inl u ↦
          loop-later k want a h c cs p u
            (kmalloc_loop-Served k want (follow a c cs) h cs p.1.1 (omega arith))
      | inr f ↦
          let start : a ≡ a + total [] = omega arith in
          inr (
            record { pre = []; cell = c; post = cs; cells = refl; passed = tt; fits = f },
            kmalloc_loop-take k want a (follow a c cs) h c p.0 p.1.0 f
                ∙ ap (λ t. some (payload_of t, take_block want t h)) start,
          )
    ]

-- Requests of up to 2^64 - 16 bytes are rounded up to a multiple of 16.
pub align_up-le :
    (n : ℕ) → n + 15 < 2 ^ 64 → (n ≤ align_up n heap_align) × (align_up n heap_align < n + 16)
unfolding align_up
align_up-le n h =
    let wrapped : (n + 16 + 2 ^ 64 - 1) % 2 ^ 64 ≡ n + 15 = omega arith in
    omega (arith, wrapped, ap (λ t. bit_and t (2 ^ 64 - 16)) wrapped, bit_and_high (n + 15) h)

-- kmalloc on a heap that is tiled by `cs`.
pub data Serves (size : ℕ) (s : Heap) (cs : List Cell) : Type 0 where
  no_room :
      All (Unfit (align_up size heap_align)) cs → kmalloc size s ≡ some (0, s) → Serves size s cs
  room :
      (v : Served (align_up size heap_align) cs) (t : Heap)
      → kmalloc size s ≡ some (kernel_heap_start + total v.pre + header_size, t)
      → IsHeap t (v.pre ++ take_cell (align_up size heap_align) v.cell v.post)
      → Serves size s cs

pub kmalloc-run :
    (size : ℕ) (s : Heap) (p : ℕ) (h : Headers)
    → size ≢ 0
    → s.heap_head ≡ kernel_heap_start
    → kmalloc_loop fuel (align_up size heap_align) kernel_heap_start s.at ≡ some (p, h)
    → kmalloc size s ≡ some (p, record s { at = h })
unfolding kmalloc
kmalloc-run size s p h ne e r =
    let go : ((size == 0) || (s.heap_head == 0)) ≡ false = ground (arith, e) in
    let run = ap (λ t. kmalloc_loop fuel (align_up size heap_align) t s.at) e ∙ r in
    rw (go, run, kmalloc)

replace-take_cell :
    (h h' : Headers) (a b want : ℕ) (pre : List Cell) (c : Cell) (post : List Cell)
    → a + total pre ≡ b
    → Chain h a (pre ++ (c ∷ post))
    → ((x : ℕ) → x < b → h' x ≡ h x)
    → Chain h' b (take_cell want c post)
    → Chain h' a (pre ++ take_cell want c post)
replace-take_cell h h' a b want pre c post e p f =
    elim (Bool-cases (ltb (header_size + heap_align) (c.size - want))) [
      | inl split ↦ rw split (λ q. Chain-replace h h' a b pre c post _ _ e p f q)
      | inr whole ↦ rw whole (λ q. Chain-replace h h' a b pre c post _ _ e p f q)
    ]

served-IsHeap :
    (want : ℕ) (s : Heap) (cs : List Cell) (v : Served want cs)
    → IsHeap s cs
    → IsHeap
        (record s { at = take_block want (kernel_heap_start + total v.pre) s.at })
        (v.pre ++ take_cell want v.cell v.post)
served-IsHeap want s cs v w =
    let b : ℕ = kernel_heap_start + total v.pre in
    let room : want ≤ v.cell.size = ground (arith, v.fits) in
    let chain = subst (Chain s.at kernel_heap_start) v.cells w.chain in
    let (tail, below) =
      take_block-take_cell s.at b want v.cell v.post room
        (Chain-suffix s.at kernel_heap_start b v.pre v.cell v.post refl chain) in
    record {
      head = w.head;
      chain =
          replace-take_cell s.at (take_block want b s.at) kernel_heap_start b want v.pre v.cell
            v.post refl chain below tail;
      tiles =
          total-append v.pre (take_cell want v.cell v.post)
          ∙ ap (λ t. total v.pre + t) (total-take_cell want v.cell v.post room)
          ∙ sym (total-append v.pre (v.cell ∷ v.post))
          ∙ ap total (sym v.cells)
          ∙ w.tiles;
    }

-- On a heap that is tiled by `cs`, for a request that is not 0: kmalloc ends. If no free cell is as large as
-- the rounded request it answers NULL and changes nothing; otherwise it answers the payload of the
-- first cell that is, splits off what is left when that is more than a header and 16 bytes, and leaves
-- the heap tiled.
pub kmalloc-IsHeap :
    (size : ℕ) (s : Heap) (cs : List Cell) → size ≢ 0 → IsHeap s cs → Serves size s cs
kmalloc-IsHeap size s cs ne w =
    let want : ℕ = align_up size heap_align in
    let rounds : length cs < fuel = omega (arith, length-le-total cs, w.tiles) in
    elim (kmalloc_loop-Served fuel want kernel_heap_start s.at cs w.chain rounds) [
      | inl none_fits ↦ no_room none_fits.0 (kmalloc-run size s 0 s.at ne w.head none_fits.1)
      | inr r ↦
          room r.0 (record s { at = take_block want (kernel_heap_start + total r.0.pre) s.at })
            (kmalloc-run size s (kernel_heap_start + total r.0.pre + header_size)
              (take_block want (kernel_heap_start + total r.0.pre) s.at) ne w.head r.1)
            (served-IsHeap want s cs r.0 w)
    ]
