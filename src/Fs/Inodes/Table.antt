-- ===== src/Fs/Inodes/Table.antt =====
-- The inode table as an array of inodes.
use ares_os.Prelude.{
  ℕ, ◌+◌, ◌%◌, ◌≡◌, ◌≢◌, ◌<◌, ◌≤◌, sym, ap, ◌∙◌, false, List, length, leb, ltb, Bool-cases, ◌⊎◌,
  inl, inr, Nat-cases, arith,
}
use ares_os.Fs.Bytes.{fs_memcpy, slice}
use ares_os.Fs.Bytes.Copy.{length-fs_memcpy, slice-fs_memcpy, slice-fs_memcpy_apart}
use ares_os.Fs.Layout.{AresStatus, ares_ok, Inode, inode_bytes, inode_of, inode_count, inode_size}
use ares_os.Fs.Layout.Coding.{IsInode, length-inode_bytes, inode_of-inode_bytes}
use ares_os.Fs.Device.{Device, IsDevice, IsReliable}
use ares_os.Fs.State.{Fs, ok, fail, block_read, block_write}
use ares_os.Fs.State.Transfer.{
  block_read-block_write, block_read-block_write_ne, length-block_read, block_read_failed,
  Result-cases, OnlyDisk, block_write-OnlyDisk, block_write-reliable, block_read-reliable,
}
use ares_os.Fs.Inodes.{inode_block, inode_offset, inode_read, inode_write}

module _ (dev : Device) (law : IsDevice dev) where
  -- The block as it stands after a write into it.
  abbrev patched : ℕ → Inode → List ℕ → List ℕ
  patched n ino buf = fs_memcpy (inode_offset n) (inode_bytes ino) buf

  length-patched :
      (n : ℕ) (ino : Inode) (buf : List ℕ)
      → IsInode ino
      → length buf ≡ 512
      → length (patched n ino buf) ≡ 512
  length-patched n ino buf v e =
      length-fs_memcpy (inode_offset n) (inode_bytes ino) buf
        (omega (arith, length-inode_bytes ino v))
      ∙ e

  -- A write that succeeds has read the block and written it back.
  pub record Stored (n : ℕ) (ino : Inode) (fs : Fs dev.State) : Type 0 where
    pub inside : n < inode_count
    pub buf : List ℕ
    pub before : block_read dev fs (inode_block n) ≡ ok buf
    pub after : block_read dev (inode_write dev n ino fs).1 (inode_block n) ≡ ok (patched n ino buf)

  pub inode_read-step :
      (n : ℕ) (fs : Fs dev.State) (buf : List ℕ)
      → n < inode_count
      → block_read dev fs (inode_block n) ≡ ok buf
      → inode_read dev fs n ≡ ok (inode_of (slice (inode_offset n) inode_size buf))
  unfolding inode_read
  inode_read-step n fs buf h e =
      let inside : leb inode_count n ≡ false = ground arith in rw (inside, e)

  pub inode_read-congr :
      (n : ℕ) (fs fs' : Fs dev.State)
      → block_read dev fs (inode_block n) ≡ block_read dev fs' (inode_block n)
      → inode_read dev fs n ≡ inode_read dev fs' n
  unfolding inode_read
  inode_read-congr n fs fs' e = rw e

  pub inode_write-elsewhere :
      (n : ℕ) (ino : Inode) (fs : Fs dev.State) (k : ℕ)
      → inode_block n ≢ k
      → block_read dev (inode_write dev n ino fs).1 k ≡ block_read dev fs k
  unfolding inode_write
  inode_write-elsewhere n ino fs k d = elim (Bool-cases (leb inode_count n)) [
    | inl out ↦ rw out
    | inr inside ↦ elim (Result-cases (block_read dev fs (inode_block n))) [
      | inr bad ↦ rw (inside, bad.1)
      | inl good ↦
          rw (inside, good.1)
            (block_read-block_write_ne dev law (inode_block n) k (patched n ino good.0) fs d)
    ]
  ]

  inode_write-step :
      (n : ℕ) (ino : Inode) (fs : Fs dev.State) (buf : List ℕ)
      → n < inode_count
      → block_read dev fs (inode_block n) ≡ ok buf
      → inode_write dev n ino fs ≡ block_write dev (inode_block n) (patched n ino buf) fs
  unfolding inode_write
  inode_write-step n ino fs buf h e =
      let inside : leb inode_count n ≡ false = ground arith in rw (inside, e)

  pub inode_write-OnlyDisk :
      (n : ℕ) (ino : Inode) (fs : Fs dev.State) → OnlyDisk fs (inode_write dev n ino fs).1
  unfolding inode_write
  inode_write-OnlyDisk n ino fs = elim (Bool-cases (leb inode_count n)) [
    | inl out ↦ rw out
    | inr inside ↦ elim (Result-cases (block_read dev fs (inode_block n))) [
      | inr bad ↦ rw (inside, bad.1)
      | inl good ↦
          rw (inside, good.1) (block_write-OnlyDisk dev (inode_block n) (patched n ino good.0) fs)
    ]
  ]

  pub inode_write-reliable :
      (n : ℕ) (ino : Inode) (fs : Fs dev.State)
      → IsReliable dev
      → n < inode_count
      → (inode_write dev n ino fs).0 ≡ ares_ok
  inode_write-reliable n ino fs r h =
      let place : inode_block n < 4096 = omega arith in
      let (buf, e) = block_read-reliable dev (inode_block n) fs r place in
      ap (λ t. t.0) (inode_write-step n ino fs buf h e)
      ∙ block_write-reliable dev (inode_block n) (patched n ino buf) fs r place

  inode_write-fail :
      (n : ℕ) (ino : Inode) (fs : Fs dev.State) (st : AresStatus)
      → block_read dev fs (inode_block n) ≡ fail st
      → (inode_write dev n ino fs).0 ≢ ares_ok
  unfolding inode_write
  inode_write-fail n ino fs st e h =
      ground (arith, block_read_failed dev law (inode_block n) fs st e)

  inode_write-outside :
      (n : ℕ) (ino : Inode) (fs : Fs dev.State)
      → (inode_write dev n ino fs).0 ≡ ares_ok
      → n < inode_count
  unfolding inode_write
  inode_write-outside n ino fs h = ground arith

  pub inode_write-Stored :
      (n : ℕ) (ino : Inode) (fs : Fs dev.State)
      → IsInode ino
      → (inode_write dev n ino fs).0 ≡ ares_ok
      → Stored n ino fs
  inode_write-Stored n ino fs v h = elim (Result-cases (block_read dev fs (inode_block n))) [
    | inr bad ↦ absurd (inode_write-fail n ino fs bad.0 bad.1 h)
    | inl good ↦
        let inside = inode_write-outside n ino fs h in
        let step = inode_write-step n ino fs good.0 inside good.1 in
        record {
          inside = inside;
          buf = good.0;
          before = good.1;
          after =
              ap (λ t. block_read dev t.1 (inode_block n)) step
              ∙ block_read-block_write dev law (inode_block n) (patched n ino good.0) fs
                  (length-patched n ino good.0 v
                    (length-block_read dev law (inode_block n) fs good.1))
                  (sym (ap (λ t. t.0) step) ∙ h);
        }
  ]

  -- On a device that keeps its laws, an inode whose fields fit their widths reads back whole after an
  -- inode_write that succeeds.
  pub inode_read-inode_write :
      (n : ℕ) (ino : Inode) (fs : Fs dev.State)
      → IsInode ino
      → (inode_write dev n ino fs).0 ≡ ares_ok
      → inode_read dev (inode_write dev n ino fs).1 n ≡ ok ino
  inode_read-inode_write n ino fs v h =
      let s = inode_write-Stored n ino fs v h in
      inode_read-step n _ _ s.inside s.after
      ∙ ap (λ t. ok (inode_of t))
          (slice-fs_memcpy (inode_offset n) inode_size (inode_bytes ino) s.buf
            (length-inode_bytes ino v)
            (omega (arith, length-block_read dev law (inode_block n) fs s.before)))
      ∙ ap ok (inode_of-inode_bytes ino v)

  -- Two inodes lie in different blocks, or apart in one block.
  inode_apart :
      (n m : ℕ)
      → n ≢ m
      → inode_block n ≡ inode_block m
      → (inode_offset m + inode_size ≤ inode_offset n)
        ⊎ (inode_offset n + inode_size ≤ inode_offset m)
  inode_apart n m d e = elim (Bool-cases (ltb (n % 4) (m % 4))) [
    | inl less ↦ inr (ground arith)
    | inr more ↦ inl (let k : m % 4 < n % 4 = ground arith in omega arith)
  ]

  apart_sized : (a b k : ℕ) → k ≡ 128 → (a + 128 ≤ b) ⊎ (b + 128 ≤ a) → (a + 128 ≤ b) ⊎ (b + k ≤ a)
  apart_sized a b k e h = ground arith

  -- On a device that keeps its laws, after an inode_write that succeeds, of an inode whose fields fit,
  -- inode_read of any other number answers as before, within the same block too.
  pub inode_read-inode_write_ne :
      (n m : ℕ) (ino : Inode) (fs : Fs dev.State)
      → IsInode ino
      → (inode_write dev n ino fs).0 ≡ ares_ok
      → n ≢ m
      → inode_read dev (inode_write dev n ino fs).1 m ≡ inode_read dev fs m
  inode_read-inode_write_ne n m ino fs v h d = elim (Nat-cases (inode_block n) (inode_block m)) [
    | inr other ↦ inode_read-congr m _ _ (inode_write-elsewhere n ino fs (inode_block m) other)
    | inl same ↦
        let s = inode_write-Stored n ino fs v h in
        let inside : m < inode_count = omega (arith, s.inside) in
        let at = λ (k : ℕ). block_read dev fs k in
        let read : length s.buf ≡ 512 = length-block_read dev law (inode_block n) fs s.before in
        inode_read-step m _ (patched n ino s.buf) inside
          (ap (block_read dev (inode_write dev n ino fs).1) (sym same) ∙ s.after)
        ∙ ap (λ t. ok (inode_of t))
            (slice-fs_memcpy_apart (inode_offset m) inode_size (inode_offset n) (inode_bytes ino)
              s.buf (omega (arith, length-inode_bytes ino v))
              (apart_sized (inode_offset m) (inode_offset n) (length (inode_bytes ino))
                (length-inode_bytes ino v) (inode_apart n m d same)))
        ∙ sym (inode_read-step m fs s.buf inside (ap (block_read dev fs) (sym same) ∙ s.before))
  ]
