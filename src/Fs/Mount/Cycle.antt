-- ===== src/Fs/Mount/Cycle.antt =====
-- A mount finds what a format or an unmount left on the disk.
use ares_os.Prelude.{
  ℕ, zero, suc, ◌+◌, ◌≡◌, refl, ap, ◌∙◌, true, List, [], ◌∷◌, ◌++◌, length, drop, replicate, arith,
  append-nil,
}
use ares_os.Prelude.Word.{bit_xor-lt}
use ares_os.Fs.Bytes.{fs_memset, fs_memcpy}
use ares_os.Fs.Layout.{
  ares_ok, Superblock, superblock_bytes, superblock_of, block_size, superblock_block,
  block_bitmap_block, inode_bitmap_block, aresfs_magic, aresfs_version, max_open_files,
}
use ares_os.Fs.Layout.Coding.{
  Fits, IsSuperblock, length-superblock_bytes, superblock_of-superblock_bytes,
}
use ares_os.Fs.Bytes.Copy.{length-fs_memcpy}
use ares_os.Fs.Device.{Device, IsDevice, IsReliable}
use ares_os.Fs.State.{Fs, free_entry, ok, block_read, block_write}
use ares_os.Fs.State.Transfer.{
  block_read-block_write, block_read-block_write_ne, block_write-reliable,
}
use ares_os.Fs.Mount.{sb_checksum, signed, accepts, write_superblock, aresfs_mount, aresfs_unmount}

module _ (dev : Device) where
  abbrev pub mounted_with : Superblock → (blocks inodes : List ℕ) → Fs dev.State → Fs dev.State
  mounted_with sb blocks inodes fs = record fs {
    sb = sb;
    block_bitmap = blocks;
    inode_bitmap = inodes;
    fds = replicate max_open_files free_entry;
    mounted = true;
  }

  -- The mount of a disk whose first blocks are known.
  pub aresfs_mount-known :
      (fs : Fs dev.State) (b blocks inodes : List ℕ) (sb : Superblock)
      → dev.ata_is_present fs.disk ≡ true
      → block_read dev fs superblock_block ≡ ok b
      → superblock_of b ≡ sb
      → accepts sb ≡ true
      → block_read dev fs block_bitmap_block ≡ ok blocks
      → block_read dev fs inode_bitmap_block ≡ ok inodes
      → aresfs_mount dev fs ≡ (ares_ok, mounted_with sb blocks inodes fs)
  unfolding aresfs_mount block_read
  aresfs_mount-known fs b blocks inodes sb p e0 e1 e2 e3 e4 =
      let good : accepts (superblock_of b) ≡ true = ap accepts e1 ∙ e2 in
      rw (p, e0, good, e3, e4) (ap (λ t. (ares_ok, mounted_with t blocks inodes fs)) e1)

fs_memcpy_whole : (src dst : List ℕ) → length src ≡ length dst → fs_memcpy 0 src dst ≡ src
unfolding fs_memcpy
fs_memcpy_whole src dst e = ap (λ t. src ++ t) (rest src dst e) ∙ append-nil src
  where
    all_dropped : (n : ℕ) (xs : List ℕ) → n ≡ length xs → drop n xs ≡ []
    all_dropped zero [] e = refl
    all_dropped zero (x ∷ xs) e = absurd (omega arith)
    all_dropped (suc n) [] e = refl
    all_dropped (suc n) (x ∷ xs) e = all_dropped n xs (omega arith)

    rest : (src dst : List ℕ) → length src ≡ length dst → drop (0 + length src) dst ≡ []
    rest src dst e = all_dropped (0 + length src) dst (omega arith)

sb_checksum-Fits : (s : Superblock) → Fits 4 (sb_checksum s)
unfolding sb_checksum
sb_checksum-Fits s = bit_xor-lt 32 _ _ (omega arith) (omega arith)

pub signed-IsSuperblock : (s : Superblock) → IsSuperblock s → IsSuperblock (signed s)
signed-IsSuperblock s v = record {
  magic = v.magic;
  version = v.version;
  total_blocks = v.total_blocks;
  block_size = v.block_size;
  root_inode = v.root_inode;
  block_bitmap_blocks = v.block_bitmap_blocks;
  inode_bitmap_blocks = v.inode_bitmap_blocks;
  data_bitmap_blocks = v.data_bitmap_blocks;
  inode_start_block = v.inode_start_block;
  data_start_block = v.data_start_block;
  checksum = sb_checksum-Fits s;
  length_pad = v.length_pad;
}

-- The constants that a mount looks for.
pub record IsAres (s : Superblock) : Type 0 where
  pub magic : s.magic ≡ aresfs_magic
  pub version : s.version ≡ aresfs_version
  pub block_size : s.block_size ≡ 512
  pub fields : IsSuperblock s

pub accepts-signed : (s : Superblock) → IsAres s → accepts (signed s) ≡ true
unfolding sb_checksum
accepts-signed s a = ground (arith, a.magic, a.version, a.block_size)

superblock_block-IsAres : (s : Superblock) → IsAres s → length (superblock_bytes s) ≡ 512
superblock_block-IsAres s a = length-superblock_bytes s a.fields

-- Which variables a file system keeps from one mount to the next.
pub record IsCached {D : Type 0} (fs : Fs D) : Type 0 where
  pub sb : IsAres fs.sb
  pub length_blocks : length fs.block_bitmap ≡ 512
  pub length_inodes : length fs.inode_bitmap ≡ 512

module _ (dev : Device) (law : IsDevice dev) (reliable : IsReliable dev) where
  -- The first blocks after the superblock and both bitmaps are written.
  pub three_writes :
      (b1 b2 b3 : List ℕ) (fs : Fs dev.State)
      → length b1 ≡ 512
      → length b2 ≡ 512
      → length b3 ≡ 512
      → let end = (block_write dev 3 b3 (block_write dev 2 b2 (block_write dev 1 b1 fs).1).1).1 in
        (block_read dev end 1 ≡ ok b1)
        × ((block_read dev end 2 ≡ ok b2) × (block_read dev end 3 ≡ ok b3))
  three_writes b1 b2 b3 fs e1 e2 e3 =
      let f1 : Fs dev.State = (block_write dev 1 b1 fs).1 in
      let f2 : Fs dev.State = (block_write dev 2 b2 f1).1 in
      (
        block_read-block_write_ne dev law 3 1 b3 f2 (omega arith)
            ∙ block_read-block_write_ne dev law 2 1 b2 f1 (omega arith)
            ∙ block_read-block_write dev law 1 b1 fs e1
                (block_write-reliable dev 1 b1 fs reliable (omega arith)),
        (
          block_read-block_write_ne dev law 3 2 b3 f2 (omega arith)
              ∙ block_read-block_write dev law 2 b2 f1 e2
                  (block_write-reliable dev 2 b2 f1 reliable (omega arith)),
          block_read-block_write dev law 3 b3 f2 e3
              (block_write-reliable dev 3 b3 f2 reliable (omega arith)),
        ),
      )

  pub superblock_of-block :
      (s : Superblock)
      → IsSuperblock s
      → superblock_of (fs_memcpy 0 (superblock_bytes s) (fs_memset 0 block_size)) ≡ s
  superblock_of-block s v =
      ap superblock_of (
        fs_memcpy_whole (superblock_bytes s) (fs_memset 0 block_size) (length-superblock_bytes s v))
      ∙ superblock_of-superblock_bytes s v

  pub length-block :
      (s : Superblock)
      → IsSuperblock s
      → length (fs_memcpy 0 (superblock_bytes s) (fs_memset 0 block_size)) ≡ 512
  length-block s v =
      length-fs_memcpy 0 (superblock_bytes s) (fs_memset 0 block_size)
        (omega (arith, length-superblock_bytes s v))

  -- On a drive that keeps its laws and does not fail, from a mounted state with bitmaps of 512 bytes and
  -- a superblock of this format: aresfs_unmount succeeds, and aresfs_mount then succeeds with the same
  -- superblock, its checksum renewed, the same bitmaps and no open descriptor.
  pub aresfs_mount-aresfs_unmount :
      (fs : Fs dev.State)
      → fs.mounted ≡ true
      → IsCached fs
      → let done = (aresfs_unmount dev fs).1 in
        ((aresfs_unmount dev fs).0 ≡ ares_ok)
        × (aresfs_mount dev done
            ≡ (ares_ok, mounted_with dev (signed fs.sb) fs.block_bitmap fs.inode_bitmap done))
  unfolding aresfs_unmount write_superblock block_write block_read
  aresfs_mount-aresfs_unmount fs m c =
      let v : IsSuperblock (signed fs.sb) = signed-IsSuperblock fs.sb c.sb.fields in
      let b1 : List ℕ = fs_memcpy 0 (superblock_bytes (signed fs.sb)) (fs_memset 0 block_size) in
      let (r1, (r2, r3)) =
        three_writes b1 fs.block_bitmap fs.inode_bitmap (record fs { sb = signed fs.sb })
          (length-block (signed fs.sb) v) c.length_blocks c.length_inodes in
      rw m (
        refl,
        aresfs_mount-known dev _ b1 fs.block_bitmap fs.inode_bitmap (signed fs.sb)
            (reliable.present _) r1 (superblock_of-block (signed fs.sb) v)
            (accepts-signed fs.sb c.sb) r2 r3,
      )
