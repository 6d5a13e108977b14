-- ===== src/Fs/Mount/Format.antt =====
-- aresfs_format succeeds on a drive that does not fail, and a mount finds what it wrote.
use mathlib.Core.Path.{subst}
use ares_os.Prelude.{
  ℕ, zero, suc, ◌+◌, ◌≤◌, ◌<◌, ◌≡◌, refl, sym, ap, ◌∙◌, true, List, length, arith,
}
use ares_os.Prelude.Bitmap
use ares_os.Fs.Bytes.{fs_memset, fs_memcpy}
use ares_os.Fs.Layout.{
  AresStatus, ares_ok, superblock_bytes, block_size, root_inode, data_start_block,
  inode_start_block,
}
use ares_os.Fs.Layout.Coding.{IsSuperblock}
use ares_os.Fs.Device.{Device, IsDevice, IsReliable}
use ares_os.Fs.State.{Fs, block_read, block_write}
use ares_os.Fs.State.Transfer.{
  block_read-block_write_ne, block_write-reliable, block_write-OnlyDisk, >>-ok, >>-next,
  OnlyDisk-trans, OnlyDisk,
}
use ares_os.Fs.Inodes.{inode_write}
use ares_os.Fs.Inodes.Table.{inode_write-elsewhere, inode_write-OnlyDisk, inode_write-reliable}
use ares_os.Fs.Mount.{
  signed, blank_superblock, write_superblock, zero_table, reset_fds, aresfs_mount, aresfs_format,
  format_block_bitmap, format_inode_bitmap, root_directory, dot_entries, reserve_blocks,
}
use ares_os.Fs.Mount.Cycle.{
  IsAres, accepts-signed, signed-IsSuperblock, mounted_with, aresfs_mount-known,
  superblock_of-block, length-block, three_writes,
}

length-reserve_blocks : (n i : ℕ) (bm : List ℕ) → length (reserve_blocks n i bm) ≡ length bm
unfolding reserve_blocks
length-reserve_blocks zero i bm = refl
length-reserve_blocks (suc n) i bm =
    length-reserve_blocks n (i + 1) (Bitmap.set_one 8 bm i) ∙ Bitmap.length-set_one 8 bm i

pub blank-IsAres : IsAres blank_superblock
blank-IsAres = record {
  magic = refl;
  version = refl;
  block_size = refl;
  fields = record {
    magic = omega arith;
    version = omega arith;
    total_blocks = omega arith;
    block_size = omega arith;
    root_inode = omega arith;
    block_bitmap_blocks = omega arith;
    inode_bitmap_blocks = omega arith;
    data_bitmap_blocks = omega arith;
    inode_start_block = omega arith;
    data_start_block = omega arith;
    checksum = omega arith;
    length_pad = refl;
  };
}

module _ (dev : Device) (law : IsDevice dev) (reliable : IsReliable dev) where
  -- Clearing the inode table.
  pub record Cleared (fs end : Fs dev.State) : Type 0 where
    pub frame : OnlyDisk fs end
    pub kept : (k : ℕ) → k < inode_start_block → block_read dev end k ≡ block_read dev fs k

  zero_table-Cleared :
      (n i : ℕ) (fs : Fs dev.State)
      → i + n ≤ 128
      → ((zero_table dev n i fs).0 ≡ ares_ok) × Cleared fs (zero_table dev n i fs).1
  unfolding zero_table
  zero_table-Cleared zero i fs h = (refl, record { frame = refl; kept = λ k l. refl })
  zero_table-Cleared (suc n) i fs h =
      let place : inode_start_block + i < 4096 = omega arith in
      let zeros : List ℕ = fs_memset 0 block_size in
      let f : Fs dev.State = (block_write dev (inode_start_block + i) zeros fs).1 in
      let (good, rest) = zero_table-Cleared n (i + 1) f (omega arith) in
      let step =
        >>-ok (block_write dev (inode_start_block + i) zeros fs) (zero_table dev n (i + 1))
          (block_write-reliable dev (inode_start_block + i) zeros fs reliable place) in
      (
        ap (λ t. t.0) step ∙ good,
        subst (λ t. Cleared fs t) (sym (ap (λ t. t.1) step))
            (record {
              frame =
                  OnlyDisk-trans fs f _ (block_write-OnlyDisk dev (inode_start_block + i) zeros fs)
                    rest.frame;
              kept = λ k l.
                  rest.kept k l
                  ∙ block_read-block_write_ne dev law (inode_start_block + i) k zeros fs
                      (omega arith);
            }),
      )

  abbrev superblocked : Fs dev.State → Fs dev.State
  superblocked fs = (write_superblock dev (record fs { sb = signed blank_superblock })).1

  abbrev bitmapped : Fs dev.State → Fs dev.State
  bitmapped fs =
      let f =
        (block_write dev 2 format_block_bitmap
          (record (superblocked fs) { block_bitmap = format_block_bitmap })).1 in
      (block_write dev 3 format_inode_bitmap (record f { inode_bitmap = format_inode_bitmap })).1

  abbrev tabled : Fs dev.State → Fs dev.State
  tabled fs = (inode_write dev root_inode root_directory (zero_table dev 128 0 (bitmapped fs)).1).1

  abbrev rooted : Fs dev.State → Fs dev.State
  rooted fs = (block_write dev data_start_block (dot_entries root_inode root_inode) (tabled fs)).1

  abbrev formatted : Fs dev.State → Fs dev.State
  formatted fs = record (reset_fds dev (rooted fs)) { mounted = true }

  aresfs_format-formatted : (fs : Fs dev.State) → aresfs_format dev fs ≡ (ares_ok, formatted fs)
  unfolding aresfs_format write_superblock
  aresfs_format-formatted fs =
      let written = λ (n : ℕ) (b : List ℕ) (f : Fs dev.State) (h : n < 4096).
        block_write-reliable dev n b f reliable h in
      let first : List ℕ =
        fs_memcpy 0 (superblock_bytes (signed blank_superblock)) (fs_memset 0 block_size) in
      let table = zero_table-Cleared 128 0 (bitmapped fs) (omega arith) in
      let blocks : Fs dev.State → AresStatus × Fs dev.State = λ (f : Fs dev.State).
        block_write dev 2 format_block_bitmap (record f { block_bitmap = format_block_bitmap }) in
      let inodes : Fs dev.State → AresStatus × Fs dev.State = λ (f : Fs dev.State).
        block_write dev 3 format_inode_bitmap (record f { inode_bitmap = format_inode_bitmap }) in
      let last : Fs dev.State → AresStatus × Fs dev.State =
        λ (f : Fs dev.State). (ares_ok, record (reset_fds dev f) { mounted = true }) in
      rw (reliable.present fs.disk) (
        >>-next last
          (>>-next (block_write dev data_start_block (dot_entries root_inode root_inode))
            (>>-next (inode_write dev root_inode root_directory)
              (>>-next (zero_table dev 128 0)
                (>>-next inodes
                  (>>-next blocks
                    (λ i. (
                      written 1 first (record fs { sb = signed blank_superblock }) (omega arith) i,
                      superblocked fs,
                    ))
                    (written 2 _ _ (omega arith)))
                  (written 3 _ _ (omega arith)))
                table.0)
              (inode_write-reliable dev law root_inode root_directory _ reliable (omega arith)))
            (written 132 _ _ (omega arith)))
          refl)

  first_reads :
      (fs : Fs dev.State) (k : ℕ)
      → k < 4
      → block_read dev (rooted fs) k ≡ block_read dev (bitmapped fs) k
  first_reads fs k h =
      block_read-block_write_ne dev law data_start_block k (dot_entries root_inode root_inode)
        (tabled fs) (omega arith)
      ∙ inode_write-elsewhere dev law root_inode root_directory
          (zero_table dev 128 0 (bitmapped fs)).1 k (omega arith)
      ∙ (zero_table-Cleared 128 0 (bitmapped fs) (omega arith)).1.kept k h

  rooted-OnlyDisk : (fs : Fs dev.State) → OnlyDisk (bitmapped fs) (rooted fs)
  rooted-OnlyDisk fs =
      let cleared : Fs dev.State = (zero_table dev 128 0 (bitmapped fs)).1 in
      OnlyDisk-trans (bitmapped fs) (tabled fs) (rooted fs)
        (OnlyDisk-trans (bitmapped fs) cleared (tabled fs)
          (zero_table-Cleared 128 0 (bitmapped fs) (omega arith)).1.frame
          (inode_write-OnlyDisk dev law root_inode root_directory cleared))
        (block_write-OnlyDisk dev data_start_block (dot_entries root_inode root_inode) (tabled fs))

  length-format_block_bitmap : length format_block_bitmap ≡ 512
  length-format_block_bitmap = length-reserve_blocks 133 0 (fs_memset 0 block_size)

  length-format_inode_bitmap : length format_inode_bitmap ≡ 512
  length-format_inode_bitmap =
      Bitmap.length-set_one 8 (Bitmap.set_one 8 (fs_memset 0 block_size) 0) 1
      ∙ Bitmap.length-set_one 8 (fs_memset 0 block_size) 0

  remount-formatted :
      (fs : Fs dev.State)
      → mounted_with dev
          (signed blank_superblock)
          format_block_bitmap
          format_inode_bitmap
          (formatted fs)
        ≡ formatted fs
  unfolding block_write write_superblock
  remount-formatted fs =
      let p = rooted-OnlyDisk fs in
      λ k. record (formatted fs) {
        sb = sym (ap (λ (t : Fs dev.State). t.sb) p) k;
        block_bitmap = sym (ap (λ (t : Fs dev.State). t.block_bitmap) p) k;
        inode_bitmap = sym (ap (λ (t : Fs dev.State). t.inode_bitmap) p) k;
      }

  mount-formatted : (fs : Fs dev.State) → aresfs_mount dev (formatted fs) ≡ (ares_ok, formatted fs)
  unfolding block_read block_write write_superblock
  mount-formatted fs =
      let v : IsSuperblock (signed blank_superblock) =
        signed-IsSuperblock blank_superblock blank-IsAres.fields in
      let b1 : List ℕ =
        fs_memcpy 0 (superblock_bytes (signed blank_superblock)) (fs_memset 0 block_size) in
      let (r1, (r2, r3)) =
        three_writes dev law reliable b1 format_block_bitmap format_inode_bitmap
          (record fs { sb = signed blank_superblock })
          (length-block dev law reliable (signed blank_superblock) v) length-format_block_bitmap
          length-format_inode_bitmap in
      aresfs_mount-known dev (formatted fs) b1 format_block_bitmap format_inode_bitmap
        (signed blank_superblock) (reliable.present _) (first_reads fs 1 (omega arith) ∙ r1)
        (superblock_of-block dev law reliable (signed blank_superblock) v)
        (accepts-signed blank_superblock blank-IsAres) (first_reads fs 2 (omega arith) ∙ r2)
        (first_reads fs 3 (omega arith) ∙ r3)
      ∙ ap (λ t. (ares_ok, t)) (remount-formatted fs)

  -- On a drive that keeps its laws and does not fail, aresfs_format succeeds from any state, and
  -- aresfs_mount of its disk succeeds and leaves exactly the state that the format left.
  pub aresfs_mount-aresfs_format :
      (fs : Fs dev.State)
      → let done = (aresfs_format dev fs).1 in
        ((aresfs_format dev fs).0 ≡ ares_ok) × (aresfs_mount dev done ≡ (ares_ok, done))
  aresfs_mount-aresfs_format fs =
      let e = aresfs_format-formatted fs in
      (
        ap (λ t. t.0) e,
        ap (λ t. aresfs_mount dev t.1) e
            ∙ mount-formatted fs
            ∙ ap (λ t. (ares_ok, t)) (sym (ap (λ t. t.1) e)),
      )
