-- ===== src/Fs/Body/Content.antt =====
-- The contents of a file as its pointers say, byte by byte, apart from the functions of fs/aresfs.c.
use ares_os.Prelude.{
  ℕ, zero, suc, ◌+◌, ◌-◌, ◌*◌, ◌%◌, ◌≤◌, ◌<◌, ◌≡◌, ◌≢◌, refl, sym, ap, ◌∙◌, false, List, [], ◌∷◌,
  ◌++◌, length, take, drop, get_or, replicate, ◌==◌, ltb, leb, if◌then◌else◌, ◌||◌, ◌⊎◌, arith,
}
use ares_os.Fs.Bytes.{slice, le_at}
use ares_os.Fs.Layout.{Inode}
use ares_os.Fs.Device.{Device}
use ares_os.Fs.State.{Fs, ok, fail, block_read}
use ares_os.Fs.Body.{logical_of}

drop-cons : (i : ℕ) (b : List ℕ) → i < length b → drop i b ≡ get_or b i 0 ∷ drop (suc i) b
drop-cons i [] h = elim h [ ]
drop-cons zero (x ∷ b) h = refl
drop-cons (suc i) (x ∷ b) h = drop-cons i b (omega arith)

slice-suc :
    (i n : ℕ) (b : List ℕ) → i < length b → slice i (suc n) b ≡ get_or b i 0 ∷ slice (i + 1) n b
slice-suc i n b h =
    ap (take (suc n)) (drop-cons i b h)
    ∙ ap (λ k. get_or b i 0 ∷ slice k n b) (let e : suc i ≡ i + 1 = omega arith in e)

-- `ind` is what the indirect block holds.
module _ (dev : Device) (fs : Fs dev.State) (ino : Inode) (ind : List ℕ) where
  -- The block that the file has at place `l`, or 0 for a hole: a pointer of the inode, then one of the
  -- indirect block.
  abbrev pub block_of : ℕ → ℕ
  block_of l =
      if ltb l 12
      then get_or ino.direct l 0
      else if (ino.indirect == 0) || leb 140 l
      then 0
      else le_at 4 ((l - 12) * 4) ind

  -- The block that holds the byte at `off`.
  abbrev pub holder : ℕ → ℕ
  holder off = block_of (logical_of off)

  -- The byte of the file at `off`: 0 in a hole.
  abbrev pub file_byte : ℕ → ℕ
  file_byte off =
      if holder off == 0
      then 0
      else elim (block_read dev fs (holder off)) [ fail st ↦ 0 | ok b ↦ get_or b (off % 512) 0 ]

  abbrev pub bytes_from : ℕ → ℕ → List ℕ
  bytes_from off zero = []
  bytes_from off (suc n) = file_byte off ∷ bytes_from (off + 1) n

  -- The indirect block, if there is one, can be read, and so can every block that holds a byte of the
  -- file.
  pub record IsReadable : Type 0 where
    pub indirect : ino.indirect ≢ 0 → block_read dev fs ino.indirect ≡ ok ind
    pub blocks :
        (off : ℕ)
        → off < ino.size
        → (holder off ≡ 0) ⊎ ((b : List ℕ) × (block_read dev fs (holder off) ≡ ok b))

  pub length-bytes_from : (n off : ℕ) → length (bytes_from off n) ≡ n
  length-bytes_from zero off = refl
  length-bytes_from (suc n) off = ap suc (length-bytes_from n (off + 1))

  pub bytes_from-append :
      (m n off : ℕ) → bytes_from off m ++ bytes_from (off + m) n ≡ bytes_from off (m + n)
  bytes_from-append zero n off =
      ap (λ o. bytes_from o n) (let e : off + 0 ≡ off = omega arith in e)
      ∙ ap (bytes_from off) (let e : n ≡ 0 + n = omega arith in e)
  bytes_from-append (suc m) n off =
      ap (λ t. file_byte off ∷ t)
        (ap (λ o. bytes_from (off + 1) m ++ bytes_from o n)
            (let e : off + suc m ≡ off + 1 + m = omega arith in e)
          ∙ bytes_from-append m n (off + 1))
      ∙ ap (bytes_from off) (let e : suc (m + n) ≡ suc m + n = omega arith in e)

  -- The next byte of the same block.
  next_byte :
      (off n : ℕ)
      → off % 512 + suc (suc n) ≤ 512
      → (holder (off + 1) ≡ holder off)
        × ((off + 1) % 512 ≡ off % 512 + 1)
        × ((off + 1) % 512 + suc n ≤ 512)
  next_byte off n h =
      let same : logical_of (off + 1) ≡ logical_of off = omega arith in
      (ap block_of same, omega arith, omega arith)

  pub hole_bytes :
      (n off : ℕ) → off % 512 + n ≤ 512 → holder off ≡ 0 → bytes_from off n ≡ replicate n 0
  hole_bytes zero off h e = refl
  hole_bytes (suc zero) off h e = rw e refl
  hole_bytes (suc (suc n)) off h e =
      let (same, low, room) = next_byte off n h in
      let first : file_byte off ≡ 0 = rw e refl in
      let rest = hole_bytes (suc n) (off + 1) room (same ∙ e) in λ i. first i ∷ rest i

  pub block_bytes :
      (n off : ℕ) (b : List ℕ)
      → off % 512 + n ≤ 512
      → holder off ≢ 0
      → block_read dev fs (holder off) ≡ ok b
      → length b ≡ 512
      → bytes_from off n ≡ slice (off % 512) n b
  block_bytes zero off b h d e l = refl
  block_bytes (suc zero) off b h d e l =
      let given : (holder off == 0) ≡ false = ground arith in
      rw (given, e) (sym (slice-suc (off % 512) 0 b (omega arith)))
  block_bytes (suc (suc n)) off b h d e l =
      let (same, low, room) = next_byte off n h in
      let given : (holder off == 0) ≡ false = ground arith in
      let first : file_byte off ≡ get_or b (off % 512) 0 = rw (given, e) refl in
      let rest =
        block_bytes (suc n) (off + 1) b room (λ z. d (sym same ∙ z))
          (ap (block_read dev fs) same ∙ e) l
        ∙ ap (λ k. slice k (suc n) b) low in
      (λ i. first i ∷ rest i) ∙ sym (slice-suc (off % 512) (suc n) b (omega arith))
