-- ===== src/Fs/Alloc/Lowest.antt =====
-- Which bit the search of a bitmap finds, and what an allocation does with it.
use mathlib.Core.Path.{subst}
use ares_os.Prelude.{
  ℕ, zero, suc, ◌+◌, ◌≤◌, ◌<◌, ◌≡◌, refl, sym, ap, ◌∙◌, Bool, true, false, not, ◌||◌, none, some,
  Option, List, length, ◌==◌, ltb, if◌then◌else◌, Bool-cases, Option-cases, Nat-cases, ◌⊎◌, inl,
  inr, arith,
}
use ares_os.Prelude.Bitmap
use ares_os.Fs.Layout.{total_blocks, block_bitmap_block, data_start_block}
use ares_os.Fs.Device.{Device, IsDevice, IsReliable}
use ares_os.Fs.State.{Fs, ok, block_read, block_write}
use ares_os.Fs.State.Transfer.{block_read-block_write, block_write-reliable}
use ares_os.Fs.Alloc.{
  bitmap_test, bitmap_set, first_free_from, bitmap_find_first_free, store_block_bitmap, alloc_block,
}

-- The lowest clear bit among the first `n`.
pub record IsFirstFree (bm : List ℕ) (n b : ℕ) : Type 0 where
  pub inside : b < n
  pub is_free : bitmap_test bm b ≡ false
  pub lower : (j : ℕ) → j < b → bitmap_test bm j ≡ true

-- What the search answers.
pub FindsFirst : List ℕ → (from n : ℕ) → Option ℕ → Type 0
FindsFirst bm from n none = (j : ℕ) → from ≤ j → j < n → bitmap_test bm j ≡ true
FindsFirst bm from n (some b) =
    (b < n) × ((bitmap_test bm b ≡ false) × ((j : ℕ) → from ≤ j → j < b → bitmap_test bm j ≡ true))

widen-FindsFirst :
    (bm : List ℕ) (i n : ℕ) (o : Option ℕ)
    → bitmap_test bm i ≡ true
    → FindsFirst bm (i + 1) n o
    → FindsFirst bm i n o
unfolding FindsFirst
widen-FindsFirst bm i n none u h = λ j l m. elim (Nat-cases i j) [
  | inl same ↦ ap (bitmap_test bm) (sym same) ∙ u
  | inr other ↦ h j (omega arith) m
]
widen-FindsFirst bm i n (some b) u (inside, (free, below)) = (
  inside,
  (
    free,
    λ j l m. elim (Nat-cases i j) [
      | inl same ↦ ap (bitmap_test bm) (sym same) ∙ u
      | inr other ↦ below j (omega arith) m
    ],
  ),
)

first_free_from-FindsFirst :
    (k i n : ℕ) (bm : List ℕ) → i + k ≡ n → FindsFirst bm i n (first_free_from k i bm)
unfolding first_free_from FindsFirst
first_free_from-FindsFirst zero i n bm e = λ j h l. absurd (omega arith)
first_free_from-FindsFirst (suc k) i n bm e = elim (Bool-cases (bitmap_test bm i)) [
  | inl used ↦
      subst
        (λ (t : Bool). FindsFirst bm i n (if not t then some i else first_free_from k (i + 1) bm))
        (sym used)
        (widen-FindsFirst bm i n (first_free_from k (i + 1) bm) used
          (first_free_from-FindsFirst k (i + 1) n bm (omega arith)))
  | inr free ↦
      subst
        (λ (t : Bool). FindsFirst bm i n (if not t then some i else first_free_from k (i + 1) bm))
        (sym free) (omega arith, (free, λ j l m. absurd (omega arith)))
]

-- The search finds the lowest clear bit, and fails only when every bit is set.
pub bitmap_find_first_free-IsFirstFree :
    (bm : List ℕ) (n : ℕ)
    → ((bitmap_find_first_free bm n ≡ none) × ((j : ℕ) → j < n → bitmap_test bm j ≡ true))
      ⊎ ((b : ℕ) × ((bitmap_find_first_free bm n ≡ some b) × IsFirstFree bm n b))
unfolding bitmap_find_first_free FindsFirst
bitmap_find_first_free-IsFirstFree bm n =
    let found = first_free_from-FindsFirst n 0 n bm (omega arith) in
    elim (Option-cases (first_free_from n 0 bm)) [
      | inl full ↦
          let h = subst (FindsFirst bm 0 n) full found in inl (full, λ j l. h j (omega arith) l)
      | inr (b, e) ↦
          let (inside, (free, below)) = subst (FindsFirst bm 0 n) e found in
          inr (
            b,
            (e, record { inside = inside; is_free = free; lower = λ j l. below j (omega arith) l }),
          )
    ]

-- The blocks that a format reserves: the boot block, the superblock, the bitmaps, the inode table and
-- the root directory.
abbrev pub IsReserved : List ℕ → Type 0
IsReserved bm = (i : ℕ) → i ≤ data_start_block → bitmap_test bm i ≡ true

module _ (dev : Device) where
  -- A full bitmap changes nothing and answers 0; otherwise the lowest free block is marked, and no
  -- other, and the bitmap of the disk follows.
  pub record Takes (fs : Fs dev.State) (b : ℕ) : Type 0 where
    pub first : IsFirstFree fs.block_bitmap total_blocks b
    pub answer : (alloc_block dev fs).0 ≡ b
    pub bitmap : (alloc_block dev fs).1.block_bitmap ≡ bitmap_set fs.block_bitmap b
    pub marked :
        (j : ℕ)
        → bitmap_test (alloc_block dev fs).1.block_bitmap j
          ≡ ((b == j) || bitmap_test fs.block_bitmap j)
    pub on_disk :
        block_read dev (alloc_block dev fs).1 block_bitmap_block
        ≡ ok (alloc_block dev fs).1.block_bitmap

  module _ (law : IsDevice dev) (reliable : IsReliable dev) where
    alloc_block-hit :
        (fs : Fs dev.State) (b : ℕ)
        → bitmap_find_first_free fs.block_bitmap total_blocks ≡ some b
        → alloc_block dev fs ≡ (b, store_block_bitmap dev (bitmap_set fs.block_bitmap b) fs)
    unfolding alloc_block
    alloc_block-hit fs b e = rw (e, alloc_block)

    alloc_block-full :
        (fs : Fs dev.State)
        → bitmap_find_first_free fs.block_bitmap total_blocks ≡ none
        → alloc_block dev fs ≡ (0, fs)
    unfolding alloc_block
    alloc_block-full fs e = rw (e, alloc_block)

    stored_bitmap :
        (bm : List ℕ) (fs : Fs dev.State) → (store_block_bitmap dev bm fs).block_bitmap ≡ bm
    unfolding block_write
    stored_bitmap bm fs = refl

    alloc_block-Takes :
        (fs : Fs dev.State) (b : ℕ)
        → length fs.block_bitmap ≡ 512
        → bitmap_find_first_free fs.block_bitmap total_blocks ≡ some b
        → IsFirstFree fs.block_bitmap total_blocks b
        → Takes fs b
    alloc_block-Takes fs b size e f =
        let step = alloc_block-hit fs b e in
        let bm : List ℕ = bitmap_set fs.block_bitmap b in
        let bitmap : (alloc_block dev fs).1.block_bitmap ≡ bm =
          ap (λ t. t.1.block_bitmap) step ∙ stored_bitmap bm fs in
        record {
          first = f;
          answer = ap (λ t. t.0) step;
          bitmap = bitmap;
          marked = λ j.
              ap (λ t. bitmap_test t j) bitmap
              ∙ Bitmap.test-set_one 8 (omega arith) fs.block_bitmap b j (omega (arith, f.inside));
          on_disk =
              ap (λ t. block_read dev t.1 block_bitmap_block) step
              ∙ block_read-block_write dev law block_bitmap_block bm
                  (record fs { block_bitmap = bm })
                  (Bitmap.length-set_one 8 fs.block_bitmap b ∙ size)
                  (block_write-reliable dev block_bitmap_block bm (record fs { block_bitmap = bm })
                    reliable (omega arith))
              ∙ ap ok (sym bitmap);
        }

    -- On a drive that does not fail, with a block bitmap of 512 bytes: if every block is in use,
    -- alloc_block answers 0 and changes nothing. Otherwise it answers the lowest free block, marks that
    -- block alone, and the bitmap on the disk is the one in memory.
    pub alloc_block-IsFirstFree :
        (fs : Fs dev.State)
        → length fs.block_bitmap ≡ 512
        → ((alloc_block dev fs ≡ (0, fs))
            × ((j : ℕ) → j < total_blocks → bitmap_test fs.block_bitmap j ≡ true))
          ⊎ ((b : ℕ) × Takes fs b)
    alloc_block-IsFirstFree fs size =
        elim (bitmap_find_first_free-IsFirstFree fs.block_bitmap total_blocks) [
          | inl full ↦ inl (alloc_block-full fs full.0, full.1)
          | inr hit ↦ inr (hit.0, alloc_block-Takes fs hit.0 size hit.1.0 hit.1.1)
        ]

    beyond : (bm : List ℕ) (b : ℕ) → IsReserved bm → bitmap_test bm b ≡ false → data_start_block < b
    beyond bm b r free = elim (Bool-cases (ltb data_start_block b)) [
      | inl high ↦ ground arith
      | inr low ↦ absurd (ground (arith, r b))
    ]

    -- On a drive that does not fail, with a bitmap of 512 bytes in which blocks 0 to 132 are in use:
    -- alloc_block answers 0 or a block of the data area beyond them, and leaves them in use.
    pub alloc_block-IsReserved :
        (fs : Fs dev.State)
        → length fs.block_bitmap ≡ 512
        → IsReserved fs.block_bitmap
        → (((alloc_block dev fs).0 ≡ 0)
            ⊎ ((data_start_block < (alloc_block dev fs).0)
                × ((alloc_block dev fs).0 < total_blocks)))
          × IsReserved (alloc_block dev fs).1.block_bitmap
    alloc_block-IsReserved fs size r = elim (alloc_block-IsFirstFree fs size) [
      | inl full ↦ (
        inl (ap (λ t. t.0) full.0),
        λ i h. ap (λ t. bitmap_test t.1.block_bitmap i) full.0 ∙ r i h,
      )
      | inr hit ↦
          let t = hit.1 in
          let above = beyond fs.block_bitmap hit.0 r t.first.is_free in
          (
            inr (omega (arith, t.answer, above), omega (arith, t.answer, t.first.inside)),
            λ i h. t.marked i ∙ ground (arith, r i h),
          )
    ]
