-- ===== src/Fs/Alloc.antt =====
-- The two bitmaps of fs/aresfs.c, with a set bit for a block or an inode in use, and the allocators
-- over them. UINT32_MAX, "the bitmap is full", is `none`.
pub mod Lowest
pub mod Undo
use ares_os.Prelude.{
  ℕ, zero, suc, ◌+◌, Bool, not, ◌||◌, Option, none, some, List, ◌==◌, leb, if◌then◌else◌,
}
use ares_os.Prelude.Bitmap
use ares_os.Fs.Layout.{
  total_blocks, block_bitmap_block, inode_bitmap_block, inode_count, inode_invalid,
}
use ares_os.Fs.Device.{Device}
use ares_os.Fs.State.{Fs, block_write}

abbrev pub bitmap_test : List ℕ → ℕ → Bool
bitmap_test = Bitmap.test 8

abbrev pub bitmap_set : List ℕ → ℕ → List ℕ
bitmap_set = Bitmap.set_one 8

abbrev pub bitmap_clear : List ℕ → ℕ → List ℕ
bitmap_clear = Bitmap.set_zero 8

-- `for (; i < bit_count; i++)`, with the rounds left
unfoldable pub first_free_from : ℕ → ℕ → List ℕ → Option ℕ
first_free_from zero i bm = none
first_free_from (suc n) i bm =
    let rest = first_free_from n (i + 1) bm in if not (bitmap_test bm i) then some i else rest

unfoldable pub bitmap_find_first_free : List ℕ → ℕ → Option ℕ
bitmap_find_first_free bm bit_count = first_free_from bit_count 0 bm

module _ (dev : Device) where
  -- The bitmap in memory, changed and written to the disk.
  abbrev pub store_block_bitmap : List ℕ → Fs dev.State → Fs dev.State
  store_block_bitmap bm fs =
      (block_write dev block_bitmap_block bm (record fs { block_bitmap = bm })).1

  abbrev pub store_inode_bitmap : List ℕ → Fs dev.State → Fs dev.State
  store_inode_bitmap bm fs =
      (block_write dev inode_bitmap_block bm (record fs { inode_bitmap = bm })).1

  -- Block 0 is the answer of a failure.
  unfoldable pub alloc_block : Fs dev.State → ℕ × Fs dev.State
  alloc_block fs = elim (bitmap_find_first_free fs.block_bitmap total_blocks) [
    | none ↦ (0, fs)
    | some b ↦ (b, store_block_bitmap (bitmap_set fs.block_bitmap b) fs)
  ]

  unfoldable pub free_block : ℕ → Fs dev.State → Fs dev.State
  free_block n fs =
      if n == 0 || leb total_blocks n
      then fs
      else if not (bitmap_test fs.block_bitmap n)
      then fs
      else store_block_bitmap (bitmap_clear fs.block_bitmap n) fs

  unfoldable pub alloc_inode : Fs dev.State → ℕ × Fs dev.State
  alloc_inode fs = elim (bitmap_find_first_free fs.inode_bitmap inode_count) [
    | none ↦ (inode_invalid, fs)
    | some b ↦ (b, store_inode_bitmap (bitmap_set fs.inode_bitmap b) fs)
  ]

  unfoldable pub free_inode : ℕ → Fs dev.State → Fs dev.State
  free_inode n fs =
      if n == inode_invalid
      then fs
      else if leb inode_count n
      then fs
      else if not (bitmap_test fs.inode_bitmap n)
      then fs
      else store_inode_bitmap (bitmap_clear fs.inode_bitmap n) fs
