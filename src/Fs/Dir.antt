-- ===== src/Fs/Dir.antt =====
-- Directories in fs/aresfs.c: up to 12 blocks of 8 entries. A walk answers with the block, the slot and
-- the entry that matched.
pub mod Entries
pub mod Add
pub mod Added
mod Tests
use ares_os.Prelude.{
  ℕ, zero, suc, ◌+◌, Bool, false, not, Option, none, some, List, [], ◌∷◌, ◌==◌, set, if◌then◌else◌,
  bit_and,
}
use ares_os.Fs.Bytes.{fs_memset, fs_strcmp}
use ares_os.Fs.Layout.{
  AresStatus, ares_error, ares_enomem, ares_einval, ares_enodev, ares_ebusy, Inode, Dirent,
  dirent_at, put_dirent, dirent_set_name, block_size, dirents_per_block, inode_invalid, type_mask,
  type_dir,
}
use ares_os.Fs.Device.{Device}
use ares_os.Fs.State.{Fs, ok, fail, block_read, block_write, is_ok}
use ares_os.Fs.Alloc.{alloc_block, free_block}
use ares_os.Fs.Inodes.{inode_read, inode_write}

pub record Found : Type 0 where
  pub block : ℕ
  pub slot : ℕ
  pub entry : Dirent

abbrev pub is_dir : Inode → Bool
is_dir ino = bit_and ino.mode type_mask == type_dir

abbrev pub match_by_name : List ℕ → Dirent → Bool
match_by_name target de = if de.inode == inode_invalid then false else fs_strcmp de.name target == 0

abbrev pub match_empty_slot : Dirent → Bool
match_empty_slot de = de.inode == inode_invalid

-- `for (; s < ARESFS_DIRENTS_PER_BLOCK; s++)`, with the rounds left
unfoldable pub walk_slots : ℕ → ℕ → (Dirent → Bool) → ℕ → List ℕ → Option Found
walk_slots zero s match blk buf = none
walk_slots (suc n) s match blk buf =
    let rest = walk_slots n (s + 1) match blk buf in
    if match (dirent_at buf s)
    then some (record { block = blk; slot = s; entry = dirent_at buf s })
    else rest

-- The first slot of the inode that holds no block.
abbrev pub first_hole : ℕ → List ℕ → Option ℕ
first_hole i [] = none
first_hole i (b ∷ bs) = let rest = first_hole (i + 1) bs in if not (b == 0) then rest else some i

module _ (dev : Device) where
  unfoldable pub walk_block : Fs dev.State → (Dirent → Bool) → ℕ → Option Found
  walk_block fs match blk = if blk == 0 then none else elim (block_read dev fs blk) [
    | fail st ↦ none
    | ok buf ↦ walk_slots dirents_per_block 0 match blk buf
  ]

  unfoldable pub walk_blocks : Fs dev.State → (Dirent → Bool) → List ℕ → Option Found
  walk_blocks fs match [] = none
  walk_blocks fs match (blk ∷ blks) = elim (walk_block fs match blk) [
    | none ↦ walk_blocks fs match blks
    | some f ↦ some f
  ]

  unfoldable pub dir_walk : Fs dev.State → ℕ → (Dirent → Bool) → Option Found
  dir_walk fs dir match = elim (inode_read dev fs dir) [
    | fail st ↦ none
    | ok ino ↦ if is_dir ino then walk_blocks fs match ino.direct else none
  ]

  unfoldable pub dir_find_entry : Fs dev.State → ℕ → List ℕ → ℕ
  dir_find_entry fs dir name = elim (dir_walk fs dir (match_by_name name)) [
    | none ↦ inode_invalid
    | some f ↦ f.entry.inode
  ]

  -- The first pass found an empty slot.
  unfoldable pub fill_slot :
      Found → (name : List ℕ) (child : ℕ) → Fs dev.State → AresStatus × Fs dev.State
  fill_slot f name child fs = elim (block_read dev fs f.block) [
    | fail st ↦ (ares_error, fs)
    | ok buf ↦
        let de = dirent_set_name (record (dirent_at buf f.slot) { inode = child }) name in
        block_write dev f.block (put_dirent buf f.slot de) fs
  ]

  -- The second pass: a new block for the directory, in slot `i` of its inode.
  unfoldable pub extend_dir :
      (dir i : ℕ) → Inode → (name : List ℕ) (child : ℕ) → Fs dev.State → AresStatus × Fs dev.State
  extend_dir dir i ino name child fs =
      let (b, fs1) = alloc_block dev fs in
      if b == 0
      then (ares_enomem, fs1)
      else (let buf = fs_memset 0 block_size in
          let de = dirent_set_name (record (dirent_at buf 0) { inode = child }) name in
          let (st, fs2) = block_write dev b (put_dirent buf 0 de) fs1 in
          if not (is_ok st)
          then (st, free_block dev b fs2)
          else inode_write dev dir
              (record ino { direct = set ino.direct i b; size = ino.size + block_size }) fs2)

  unfoldable pub dir_add_entry :
      (dir : ℕ) (name : List ℕ) (child : ℕ) → Fs dev.State → AresStatus × Fs dev.State
  dir_add_entry dir name child fs =
      if not (dir_find_entry fs dir name == inode_invalid)
      then (ares_ebusy, fs)
      else elim (inode_read dev fs dir) [
        | fail st ↦ (st, fs)
        | ok ino ↦
            if not (is_dir ino)
            then (ares_einval, fs)
            else elim (dir_walk fs dir match_empty_slot) [
              | some f ↦ fill_slot f name child fs
              | none ↦ elim (first_hole 0 ino.direct) [
                | none ↦ (ares_enomem, fs)
                | some i ↦ extend_dir dir i ino name child fs
              ]
            ]
      ]

  unfoldable pub dir_remove_entry :
      (dir : ℕ) (name : List ℕ) → Fs dev.State → AresStatus × Fs dev.State
  dir_remove_entry dir name fs = elim (dir_walk fs dir (match_by_name name)) [
    | none ↦ (ares_enodev, fs)
    | some f ↦ elim (block_read dev fs f.block) [
      | fail st ↦ (st, fs)
      | ok buf ↦
          let de : Dirent = record { inode = inode_invalid; name = fs_memset 0 56 } in
          block_write dev f.block (put_dirent buf f.slot de) fs
    ]
  ]
