-- ===== src/Fs/Dir/Tests.antt =====
-- An entry added to a root directory that holds "." and "..".
use ares_os.Prelude.{
  ℕ, ◌≡◌, refl, true, none, some, List, [], ◌∷◌, ◌++◌, replicate, ◌==◌, if◌then◌else◌, arith,
}
use ares_os.Fs.Bytes.{fs_memcpy}
use ares_os.Fs.Layout.{ares_ok, inode_bytes, inode_of, dirent_at, put_dirent, dirent_set_name}
use ares_os.Fs.Device.{ram_device, ram_device-IsDevice}
use ares_os.Fs.State.{Fs, ok, block_read, block_write}
use ares_os.Fs.Inodes.{inode_read}
use ares_os.Fs.Dir.{
  Found, match_by_name, match_empty_slot, walk_slots, walk_block, walk_blocks, dir_walk,
  dir_find_entry, fill_slot, dir_add_entry,
}
use ares_os.Fs.Dir.Added.{dir_find_entry-dir_add_entry}
use ares_os.Fs.Mount.{blank_superblock, root_directory, dot_entries}

-- the second inode of the table, and the first data block
abbrev sectors : ℕ → List ℕ
sectors k =
    if k == 2052
    then replicate 128 0 ++ inode_bytes root_directory
    else if k == 2180
    then dot_entries 1 1
    else []

abbrev rooted : Fs (ℕ → List ℕ)
rooted = record {
  disk = sectors;
  sb = blank_superblock;
  block_bitmap = [];
  inode_bitmap = [];
  mounted = true;
  fds = [];
}

abbrev third : Found
third = record { block = 132; slot = 2; entry = record { inode = 0; name = replicate 56 0 } }

root_read : inode_read (ram_device []) rooted 1 ≡ ok root_directory
unfolding inode_read block_read inode_of inode_bytes
root_read = refl

nothing_there : dir_walk (ram_device []) rooted 1 (match_by_name (97 ∷ [])) ≡ none
unfolding dir_walk walk_blocks walk_block walk_slots inode_read block_read inode_of inode_bytes
    dirent_at dot_entries put_dirent dirent_set_name fs_memcpy
nothing_there = refl

slot_there : dir_walk (ram_device []) rooted 1 match_empty_slot ≡ some third
unfolding dir_walk walk_blocks walk_block walk_slots inode_read block_read inode_of inode_bytes
    dirent_at dot_entries put_dirent dirent_set_name fs_memcpy
slot_there = refl

added : (dir_add_entry (ram_device []) 1 (97 ∷ []) 7 rooted).0 ≡ ares_ok
unfolding dir_add_entry dir_find_entry fill_slot block_write dir_walk walk_blocks walk_block
    walk_slots inode_read block_read inode_of inode_bytes dirent_at dot_entries put_dirent
    dirent_set_name fs_memcpy
added = refl

dir_find_entry-dir_add_entry_example :
    dir_find_entry
      (ram_device [])
      (dir_add_entry (ram_device []) 1 (97 ∷ []) 7 rooted).1
      1
      (97 ∷ [])
    ≡ 7
dir_find_entry-dir_add_entry_example =
    dir_find_entry-dir_add_entry (ram_device []) (ram_device-IsDevice []) rooted 1 (97 ∷ []) 7
      root_directory third root_read refl nothing_there slot_there (omega arith) (omega arith)
      (omega arith) (omega arith, tt) (omega arith) added
