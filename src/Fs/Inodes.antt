-- ===== src/Fs/Inodes.antt =====
-- The inode table of fs/aresfs.c: four inodes to a block, read and written a whole block at a time.
pub mod Table
use ares_os.Prelude.{ℕ, ◌+◌, ◌*◌, ◌/◌, ◌%◌, leb, if◌then◌else◌}
use ares_os.Fs.Bytes.{fs_memcpy, slice}
use ares_os.Fs.Layout.{
  AresStatus, ares_einval, Inode, inode_bytes, inode_of, inode_count, inode_size, inodes_per_block,
  inode_start_block,
}
use ares_os.Fs.Device.{Device}
use ares_os.Fs.State.{Fs, Result, ok, fail, block_read, block_write}

abbrev pub inode_block : ℕ → ℕ
inode_block n = inode_start_block + n / inodes_per_block

abbrev pub inode_offset : ℕ → ℕ
inode_offset n = n % inodes_per_block * inode_size

module _ (dev : Device) where
  unfoldable pub inode_read : Fs dev.State → ℕ → Result Inode
  inode_read fs n =
      if leb inode_count n then fail ares_einval else elim (block_read dev fs (inode_block n)) [
        | fail st ↦ fail st
        | ok buf ↦ ok (inode_of (slice (inode_offset n) inode_size buf))
      ]

  unfoldable pub inode_write : ℕ → Inode → Fs dev.State → AresStatus × Fs dev.State
  inode_write n ino fs =
      if leb inode_count n then (ares_einval, fs) else elim (block_read dev fs (inode_block n)) [
        | fail st ↦ (st, fs)
        | ok buf ↦
            block_write dev (inode_block n) (fs_memcpy (inode_offset n) (inode_bytes ino) buf) fs
      ]
