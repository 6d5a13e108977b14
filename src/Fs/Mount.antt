-- ===== src/Fs/Mount.antt =====
-- aresfs_format, aresfs_mount and aresfs_unmount of fs/aresfs.c.
pub mod Cycle
pub mod Format
use ares_os.Prelude.{
  ℕ, zero, suc, ◌+◌, ◌%◌, ◌^◌, Bool, true, false, not, List, [], ◌∷◌, ◌++◌, ◌==◌, length, replicate,
  if◌then◌else◌, bit_or, bit_xor, set,
}
use ares_os.Fs.Bytes.{fs_memset, fs_memcpy}
use ares_os.Fs.Layout.{
  AresStatus, ares_ok, ares_error, ares_einval, ares_enodev, Superblock, superblock_bytes,
  superblock_of, Inode, zero_inode, Dirent, dirent_at, put_dirent, dirent_set_name, aresfs_magic,
  aresfs_version, block_size, total_blocks, root_inode, inode_invalid, superblock_block,
  block_bitmap_block, inode_bitmap_block, inode_start_block, inode_table_blocks, data_start_block,
  type_dir, perm_default, max_open_files,
}
use ares_os.Fs.Device.{Device}
use ares_os.Fs.State.{Fs, FdEntry, free_entry, ok, fail, block_read, block_write, ◌>>◌}
use ares_os.Fs.Alloc.{bitmap_set}
use ares_os.Fs.Inodes.{inode_write}

unfoldable pub sb_checksum : Superblock → ℕ
sb_checksum s =
    let sum =
      (s.magic + s.version + s.total_blocks + s.block_size + s.root_inode + s.block_bitmap_blocks
        + s.inode_bitmap_blocks + s.data_bitmap_blocks + s.inode_start_block + s.data_start_block)
      % 2 ^ 32 in
    bit_xor sum 0xDEADBEEF

-- The superblock that a format writes, before its checksum is filled in.
abbrev pub blank_superblock : Superblock
blank_superblock = record {
  magic = aresfs_magic;
  version = aresfs_version;
  total_blocks = total_blocks;
  block_size = block_size;
  root_inode = root_inode;
  block_bitmap_blocks = 1;
  inode_bitmap_blocks = 1;
  data_bitmap_blocks = 0;
  inode_start_block = inode_start_block;
  data_start_block = data_start_block;
  pad = fs_memset 0 468;
  checksum = 0;
}

abbrev pub signed : Superblock → Superblock
signed s = record s { checksum = sb_checksum s }

-- `for (i = 0; i <= ARESFS_DATA_START_BLOCK; i++) bitmap_set(...)`, with the rounds left
unfoldable pub reserve_blocks : ℕ → ℕ → List ℕ → List ℕ
reserve_blocks zero i bm = bm
reserve_blocks (suc n) i bm = reserve_blocks n (i + 1) (bitmap_set bm i)

abbrev pub format_block_bitmap : List ℕ
format_block_bitmap = reserve_blocks (data_start_block + 1) 0 (fs_memset 0 block_size)

abbrev pub format_inode_bitmap : List ℕ
format_inode_bitmap = bitmap_set (bitmap_set (fs_memset 0 block_size) inode_invalid) root_inode

abbrev pub root_directory : Inode
root_directory = record zero_inode {
  mode = bit_or type_dir perm_default;
  size = block_size;
  direct = set (replicate 12 0) 0 data_start_block;
}

-- "." and ".." in the first block of a directory.
unfoldable pub dot_entries : (self parent : ℕ) → List ℕ
dot_entries self parent =
    let buf = fs_memset 0 block_size in
    let buf =
      put_dirent buf 0 (dirent_set_name (record (dirent_at buf 0) { inode = self }) (46 ∷ [])) in
    put_dirent buf 1 (dirent_set_name (record (dirent_at buf 1) { inode = parent }) (46 ∷ 46 ∷ []))

-- The four tests of a superblock.
abbrev pub accepts : Superblock → Bool
accepts s =
    if not (s.magic == aresfs_magic)
    then false
    else if not (s.version == aresfs_version)
    then false
    else if not (s.block_size == block_size)
    then false
    else s.checksum == sb_checksum s

module _ (dev : Device) where
  unfoldable pub write_superblock : Fs dev.State → AresStatus × Fs dev.State
  write_superblock fs =
      block_write dev superblock_block
        (fs_memcpy 0 (superblock_bytes fs.sb) (fs_memset 0 block_size)) fs

  -- `for (i = 0; i < ARESFS_INODE_TABLE_BLOCKS; i++)`, with the rounds left
  unfoldable pub zero_table : ℕ → ℕ → Fs dev.State → AresStatus × Fs dev.State
  zero_table zero i fs = (ares_ok, fs)
  zero_table (suc n) i fs =
      block_write dev (inode_start_block + i) (fs_memset 0 block_size) fs >> zero_table n (i + 1)

  abbrev pub reset_fds : Fs dev.State → Fs dev.State
  reset_fds fs = record fs { fds = replicate max_open_files free_entry }

  unfoldable pub aresfs_format : Fs dev.State → AresStatus × Fs dev.State
  aresfs_format fs =
      if not (dev.ata_is_present fs.disk)
      then (ares_enodev, fs)
      else write_superblock (record fs { sb = signed blank_superblock })
        >> (λ (s : Fs dev.State).
            block_write dev block_bitmap_block format_block_bitmap
              (record s { block_bitmap = format_block_bitmap }))
        >> (λ (s : Fs dev.State).
            block_write dev inode_bitmap_block format_inode_bitmap
              (record s { inode_bitmap = format_inode_bitmap }))
        >> zero_table inode_table_blocks 0
        >> inode_write dev root_inode root_directory
        >> block_write dev data_start_block (dot_entries root_inode root_inode)
        >> λ (s : Fs dev.State). (ares_ok, record (reset_fds s) { mounted = true })

  -- A block is read into one of the bitmaps; a failed read leaves it.
  abbrev pub load_block_bitmap : Fs dev.State → AresStatus × Fs dev.State
  load_block_bitmap fs = elim (block_read dev fs block_bitmap_block) [
    | fail st ↦ (st, fs)
    | ok buf ↦ (ares_ok, record fs { block_bitmap = buf })
  ]

  abbrev pub load_inode_bitmap : Fs dev.State → AresStatus × Fs dev.State
  load_inode_bitmap fs = elim (block_read dev fs inode_bitmap_block) [
    | fail st ↦ (st, fs)
    | ok buf ↦ (ares_ok, record fs { inode_bitmap = buf })
  ]

  unfoldable pub aresfs_mount : Fs dev.State → AresStatus × Fs dev.State
  aresfs_mount fs =
      if not (dev.ata_is_present fs.disk)
      then (ares_enodev, fs)
      else elim (block_read dev fs superblock_block) [
        | fail st ↦ (st, fs)
        | ok buf ↦
            let fs1 = record fs { sb = superblock_of buf } in
            if not (accepts fs1.sb)
            then (ares_einval, fs1)
            else load_block_bitmap fs1 >> load_inode_bitmap >> λ (s : Fs dev.State).
                (ares_ok, record (reset_fds s) { mounted = true })
      ]

  -- The flush does not look at the statuses of its writes.
  unfoldable pub aresfs_unmount : Fs dev.State → AresStatus × Fs dev.State
  aresfs_unmount fs =
      if not fs.mounted
      then (ares_einval, fs)
      else let fs1 = (write_superblock (record fs { sb = signed fs.sb })).1 in
        let fs2 = (block_write dev block_bitmap_block fs1.block_bitmap fs1).1 in
        let fs3 = (block_write dev inode_bitmap_block fs2.inode_bitmap fs2).1 in
        (ares_ok, record (reset_fds fs3) { mounted = false })
