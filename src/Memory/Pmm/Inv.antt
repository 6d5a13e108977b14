-- ===== src/Memory/Pmm/Inv.antt =====
-- What holds of the page allocator's state between calls.
use ares_os.Prelude.{
  ℕ, suc, ◌/◌, ◌≤◌, ◌<◌, ◌≡◌, ◌∙◌, true, false, arith, not, ◌&&◌, ◌||◌, ◌==◌, length,
}
use ares_os.Prelude.Bitmap
use ares_os.Prelude.Count.{count, count-le, count-add, count-sub}
use ares_os.Memory.Pmm.{Pmm, bitmap_is_free, bitmap_set_free, bitmap_set_used}

-- The shape of the bitmap: 256 words of 64 bits, and no bit set beyond the last page.
pub record IsShaped (m : Pmm) : Type 0 where
  pub size : length m.bitmap ≡ 256
  pub words : Bitmap.IsWords 64 m.bitmap
  pub limit : m.total ≤ 16384
  pub outside : (i : ℕ) → m.total ≤ i → bitmap_is_free m i ≡ false

-- The counter is the number of set bits.
pub record IsValid (m : Pmm) : Type 0 where
  pub shape : IsShaped m
  pub counted : m.free ≡ count (bitmap_is_free m) m.total

module _ (m : Pmm) (i : ℕ) (shape : IsShaped m) (inside : i < m.total) where
  open shape use {size, words, limit, outside}

  in_words : i / 64 < length m.bitmap
  in_words = omega arith

  pub is_free-set_used :
      (j : ℕ) → bitmap_is_free (bitmap_set_used m i) j ≡ (not (i == j) && bitmap_is_free m j)
  is_free-set_used j = Bitmap.test-set_zero 64 (omega arith) m.bitmap i j in_words

  pub is_free-set_free :
      (j : ℕ) → bitmap_is_free (bitmap_set_free m i) j ≡ ((i == j) || bitmap_is_free m j)
  is_free-set_free j = Bitmap.test-set_one 64 (omega arith) m.bitmap i j in_words

  pub set_used-IsShaped : IsShaped (bitmap_set_used m i)
  set_used-IsShaped = record {
    size = Bitmap.length-set_zero 64 m.bitmap i ∙ size;
    words = Bitmap.set_zero-IsWords 64 (omega arith) m.bitmap i words;
    limit = limit;
    outside = λ j h. ground (arith, is_free-set_used j, outside j h);
  }

  pub set_free-IsShaped : IsShaped (bitmap_set_free m i)
  set_free-IsShaped = record {
    size = Bitmap.length-set_one 64 m.bitmap i ∙ size;
    words = Bitmap.set_one-IsWords 64 (omega arith) m.bitmap i words;
    limit = limit;
    outside = λ j h. ground (arith, is_free-set_free j, outside j h);
  }

  pub count-set_used :
      bitmap_is_free m i ≡ true
      → suc (count (bitmap_is_free (bitmap_set_used m i)) m.total)
        ≡ count (bitmap_is_free m) m.total
  count-set_used h =
      count-sub (bitmap_is_free m) (bitmap_is_free (bitmap_set_used m i)) i m.total
        (λ j l. is_free-set_used j) h inside

  pub count-set_free :
      bitmap_is_free m i ≡ false
      → count (bitmap_is_free (bitmap_set_free m i)) m.total
        ≡ suc (count (bitmap_is_free m) m.total)
  count-set_free h =
      count-add (bitmap_is_free m) (bitmap_is_free (bitmap_set_free m i)) i m.total
        (λ j l. is_free-set_free j) h inside

-- The counter never passes the number of pages.
pub free-le-total : (m : Pmm) → IsValid m → m.free ≤ m.total
free-le-total m v = omega (arith, v.counted, count-le (bitmap_is_free m) m.total)
