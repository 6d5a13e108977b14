-- ===== src/Fs/Tree.antt =====
-- The calls on paths in fs/aresfs.c, and fs_init. A NULL pointer is `none`. What fs_init prints on the
-- console is left out.
use ares_os.Prelude.{
  ℕ, zero, suc, ◌+◌, not, Option, none, some, List, [], ◌∷◌, ◌++◌, ◌==◌, ltb, length, take,
  replicate, set, bit_or, if◌then◌else◌,
}
use ares_os.Fs.Bytes.{fs_strlen}
use ares_os.Fs.Layout.{
  AresStatus, ares_ok, ares_error, ares_enomem, ares_einval, ares_enodev, ares_ebusy, Inode,
  zero_inode, Dirent, dirent_at, block_size, dirents_per_block, inode_invalid, type_dir,
  perm_default,
}
use ares_os.Fs.Device.{Device}
use ares_os.Fs.State.{Fs, Result, ok, fail, block_read, block_write, is_ok}
use ares_os.Fs.Alloc.{alloc_block, free_block, alloc_inode, free_inode}
use ares_os.Fs.Inodes.{inode_read, inode_write}
use ares_os.Fs.Dir.{dir_add_entry, is_dir}
use ares_os.Fs.Names.{lookup_path, split_parent_leaf}
use ares_os.Fs.Mount.{dot_entries, aresfs_mount, aresfs_format}

-- The text of a listing so far, or ARES_ENOMEM when the buffer is too small.
abbrev pub Listing : Type 0
Listing = Result (List ℕ)

-- The body of the loop over the slots of a block.
abbrev pub list_entry : (bufsize : ℕ) → Dirent → List ℕ → Listing
list_entry bufsize de text =
    if de.inode == inode_invalid
    then ok text
    else if ltb bufsize (length text + fs_strlen de.name + 2)
    then fail ares_enomem
    else ok (text ++ (take (fs_strlen de.name) de.name ++ (10 ∷ [])))

abbrev pub list_slots : ℕ → ℕ → (bufsize : ℕ) → List ℕ → List ℕ → Listing
list_slots zero s bufsize buf text = ok text
list_slots (suc n) s bufsize buf text = elim (list_entry bufsize (dirent_at buf s) text) [
  | fail st ↦ fail st
  | ok text1 ↦ list_slots n (s + 1) bufsize buf text1
]

module _ (dev : Device) where
  abbrev new_dir : ℕ → Inode
  new_dir b = record zero_inode {
    mode = bit_or type_dir perm_default;
    size = block_size;
    direct = set (replicate 12 0) 0 b;
  }

  -- Both allocations are given back.
  abbrev pub undo_mkdir : (n b : ℕ) → Fs dev.State → Fs dev.State
  undo_mkdir n b fs = free_inode dev n (free_block dev b fs)

  -- A directory in inode `n` with its first block `b`: the block, the inode, the entry of the parent.
  unfoldable pub build_dir :
      (parent : ℕ) (leaf : List ℕ) (n b : ℕ) → Fs dev.State → AresStatus × Fs dev.State
  build_dir parent leaf n b fs =
      let (st, fs1) = block_write dev b (dot_entries n parent) fs in
      if not (is_ok st)
      then (st, undo_mkdir n b fs1)
      else (let (st, fs2) = inode_write dev n (new_dir b) fs1 in
          if not (is_ok st)
          then (st, undo_mkdir n b fs2)
          else (let (st, fs3) = dir_add_entry dev parent leaf n fs2 in
              if not (is_ok st) then (st, undo_mkdir n b fs3) else (ares_ok, fs3)))

  unfoldable pub aresfs_mkdir : Option (List ℕ) → Fs dev.State → AresStatus × Fs dev.State
  aresfs_mkdir none fs = (ares_einval, fs)
  aresfs_mkdir (some path) fs =
      if not fs.mounted
      then (ares_einval, fs)
      else if not (lookup_path dev fs (some path) == inode_invalid)
      then (ares_ebusy, fs)
      else elim (split_parent_leaf dev fs (some path)) [
        | none ↦ (ares_einval, fs)
        | some r ↦
            let (n, fs1) = alloc_inode dev fs in
            if n == inode_invalid
            then (ares_enomem, fs1)
            else (let (b, fs2) = alloc_block dev fs1 in
                if b == 0 then (ares_enomem, free_inode dev n fs2) else build_dir r.0 r.1 n b fs2)
      ]

  unfoldable pub list_block : Fs dev.State → (bufsize blk : ℕ) → List ℕ → Listing
  list_block fs bufsize blk text = if blk == 0 then ok text else elim (block_read dev fs blk) [
    | fail st ↦ ok text
    | ok buf ↦ list_slots dirents_per_block 0 bufsize buf text
  ]

  unfoldable pub list_blocks : Fs dev.State → (bufsize : ℕ) → List ℕ → List ℕ → Listing
  list_blocks fs bufsize [] text = ok text
  list_blocks fs bufsize (blk ∷ blks) text = elim (list_block fs bufsize blk text) [
    | fail st ↦ fail st
    | ok text1 ↦ list_blocks fs bufsize blks text1
  ]

  -- The buffer is given by its size; the text is what it holds before the NUL.
  unfoldable pub aresfs_listdir : Fs dev.State → Option (List ℕ) → (bufsize : ℕ) → Listing
  aresfs_listdir fs none bufsize = fail ares_einval
  aresfs_listdir fs (some path) bufsize =
      if not fs.mounted
      then fail ares_einval
      else if bufsize == 0
      then fail ares_einval
      else let n = lookup_path dev fs (some path) in
        if n == inode_invalid then fail ares_enodev else elim (inode_read dev fs n) [
          | fail st ↦ fail ares_error
          | ok ino ↦
              if not (is_dir ino) then fail ares_einval else list_blocks fs bufsize ino.direct []
        ]

  unfoldable pub aresfs_stat : Fs dev.State → Option (List ℕ) → Result (ℕ × ℕ)
  aresfs_stat fs none = fail ares_einval
  aresfs_stat fs (some path) =
      if not fs.mounted
      then fail ares_einval
      else let n = lookup_path dev fs (some path) in
        if n == inode_invalid then fail ares_enodev else elim (inode_read dev fs n) [
          | fail st ↦ fail ares_error
          | ok ino ↦ ok (ino.size, ino.mode)
        ]

  unfoldable pub fs_init : Fs dev.State → Fs dev.State
  fs_init fs =
      let fs = record fs { disk = dev.ata_init fs.disk } in
      if not (dev.ata_is_present fs.disk)
      then fs
      else (let (st, fs1) = aresfs_mount dev fs in
          if is_ok st then fs1 else (aresfs_format dev fs1).1)
