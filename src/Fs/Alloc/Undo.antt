-- ===== src/Fs/Alloc/Undo.antt =====
-- A block that was allocated and is freed again.
use ares_os.Prelude.{
  ℕ, ◌/◌, ◌<◌, ◌≡◌, ◌≢◌, refl, sym, ap, ◌∙◌, true, false, not, ◌||◌, ◌&&◌, List, length, ◌==◌, leb,
  Bool-cases, inl, inr, arith,
}
use ares_os.Prelude.Bitmap
use ares_os.Prelude.Bitmap.{IsWords}
use ares_os.Fs.Layout.{total_blocks}
use ares_os.Fs.Device.{Device, IsDevice, IsReliable}
use ares_os.Fs.State.{Fs, block_write}
use ares_os.Fs.Alloc.{
  bitmap_test, bitmap_set, bitmap_clear, store_block_bitmap, alloc_block, free_block,
}
use ares_os.Fs.Alloc.Lowest.{alloc_block-IsFirstFree}

-- Clearing a bit that was set restores the bitmap.
pub bitmap_clear-bitmap_set :
    (bm : List ℕ) (b : ℕ)
    → b / 8 < length bm
    → IsWords 8 bm
    → bitmap_test bm b ≡ false
    → bitmap_clear (bitmap_set bm b) b ≡ bm
bitmap_clear-bitmap_set bm b h w free =
    let set : List ℕ = bitmap_set bm b in
    let size : length set ≡ length bm = Bitmap.length-set_one 8 bm b in
    let words : IsWords 8 set = Bitmap.set_one-IsWords 8 (omega arith) bm b w in
    Bitmap.eq_of_tests 8 (omega arith) (bitmap_clear set b) bm
      (Bitmap.length-set_zero 8 set b ∙ size) (Bitmap.set_zero-IsWords 8 (omega arith) set b words)
      w
      λ j.
        Bitmap.test-set_zero 8 (omega arith) set b j (omega (arith, size))
        ∙ ap (λ t. not (b == j) && t) (Bitmap.test-set_one 8 (omega arith) bm b j h)
        ∙ elim (Bool-cases (b == j)) [
          | inl same ↦ let e : b ≡ j = ground arith in rw same (sym free ∙ ap (bitmap_test bm) e)
          | inr other ↦ rw other
        ]

module _ (dev : Device) where
  free_block-used :
      (fs : Fs dev.State) (b : ℕ)
      → b ≢ 0
      → b < total_blocks
      → bitmap_test fs.block_bitmap b ≡ true
      → free_block dev b fs ≡ store_block_bitmap dev (bitmap_clear fs.block_bitmap b) fs
  unfolding free_block
  free_block-used fs b h l u =
      let range : ((b == 0) || leb total_blocks b) ≡ false = ground arith in rw (range, u)

  stored_cleared :
      (bm : List ℕ) (fs : Fs dev.State) → (store_block_bitmap dev bm fs).block_bitmap ≡ bm
  unfolding block_write
  stored_cleared bm fs = refl

  -- On a drive that does not fail, with a bitmap of 512 bytes: free_block of the block that alloc_block
  -- answered, if it is not 0, restores the bitmap.
  pub free_block-alloc_block :
      IsDevice dev
      → IsReliable dev
      → (fs : Fs dev.State) → length fs.block_bitmap ≡ 512
      → IsWords 8 fs.block_bitmap
      → (alloc_block dev fs).0 ≢ 0
      → (free_block dev (alloc_block dev fs).0 (alloc_block dev fs).1).block_bitmap
        ≡ fs.block_bitmap
  free_block-alloc_block law reliable fs size words ne =
      elim (alloc_block-IsFirstFree dev law reliable fs size) [
        | inl full ↦ absurd (ne (ap (λ t. t.0) full.0))
        | inr hit ↦
            let b : ℕ = (alloc_block dev fs).0 in
            let after : Fs dev.State = (alloc_block dev fs).1 in
            let t = hit.1 in
            let range : b < total_blocks = omega (arith, t.answer, t.first.inside) in
            let used : bitmap_test after.block_bitmap b ≡ true =
              t.marked b ∙ ground (arith, t.answer) in
            ap (λ t. t.block_bitmap) (free_block-used after b ne range used)
            ∙ stored_cleared (bitmap_clear after.block_bitmap b) after
            ∙ ap (λ s. bitmap_clear s b) t.bitmap
            ∙ ap (λ s. bitmap_clear (bitmap_set fs.block_bitmap hit.0) s) t.answer
            ∙ bitmap_clear-bitmap_set fs.block_bitmap hit.0 (omega (arith, t.first.inside)) words
                t.first.is_free
      ]
