-- ===== src/Fs/Tests.antt =====
-- The theorems on the file system at a drive in memory.
use ares_os.Prelude.{
  ℕ, ◌+◌, ◌≡◌, ◌≢◌, ◌<◌, ◌⊎◌, refl, Bool, true, ◌||◌, ◌==◌, if◌then◌else◌, List, [], ◌∷◌, some,
  replicate, length, set, sweep, sweep-holds, get_or-replicate, arith,
}
use ares_os.Prelude.Bitmap
use ares_os.Prelude.Bitmap.{IsWords}
use ares_os.Prelude.Word.{bit, set_bit}
use ares_os.Fs.Bytes.{fs_memset}
use ares_os.Fs.Layout.{Inode, ares_ok, base_lba, total_blocks, data_start_block, root_inode}
use ares_os.Fs.Layout.Coding.{IsInode}
use ares_os.Fs.Device.{ram_device, ram_device-IsDevice, ram_device-IsReliable}
use ares_os.Fs.State.{Fs, free_entry, ok}
use ares_os.Fs.Alloc.{
  bitmap_test, bitmap_set, alloc_block, free_block, bitmap_find_first_free, first_free_from,
}
use ares_os.Fs.Alloc.Lowest.{Takes, IsReserved, alloc_block-IsFirstFree, alloc_block-IsReserved}
use ares_os.Fs.Alloc.Undo.{free_block-alloc_block}
use ares_os.Fs.Inodes.{inode_read, inode_write}
use ares_os.Fs.Inodes.Table.{
  inode_read-inode_write, inode_read-inode_write_ne, inode_write-reliable,
}
use ares_os.Fs.Body.Content.{block_of}
use ares_os.Fs.Names.{lookup_path}
use ares_os.Fs.Names.Components.{components}
use ares_os.Fs.Names.Resolve.{resolve, lookup_path-resolve}
use ares_os.Fs.Mount.{
  blank_superblock, signed, aresfs_format, aresfs_mount, aresfs_unmount, reserve_blocks,
  format_block_bitmap,
}
use ares_os.Fs.Mount.Cycle.{IsCached, mounted_with, aresfs_mount-aresfs_unmount}
use ares_os.Fs.Mount.Format.{blank-IsAres, aresfs_mount-aresfs_format}
use ares_os.Fs.Files.{entry_of, new_file, aresfs_close}
use ares_os.Fs.Files.Descriptors.{IsClosed, aresfs_close-IsClosed}

abbrev blank : Fs (ℕ → List ℕ)
blank = record {
  disk = λ (k : ℕ). [];
  sb = blank_superblock;
  block_bitmap = fs_memset 0 512;
  inode_bitmap = fs_memset 0 512;
  mounted = true;
  fds = set (replicate 16 free_entry) 3 (record { used = true; inode_num = 2; pos = 7; flags = 1 });
}

aresfs_mount-aresfs_format_example :
    let done = (aresfs_format (ram_device []) blank).1 in
    ((aresfs_format (ram_device []) blank).0 ≡ ares_ok)
    × (aresfs_mount (ram_device []) done ≡ (ares_ok, done))
aresfs_mount-aresfs_format_example =
    aresfs_mount-aresfs_format (ram_device []) (ram_device-IsDevice []) ram_device-IsReliable blank

blank-IsCached : IsCached blank
blank-IsCached = record { sb = blank-IsAres; length_blocks = refl; length_inodes = refl }

aresfs_mount-aresfs_unmount_example :
    let done = (aresfs_unmount (ram_device []) blank).1 in
    ((aresfs_unmount (ram_device []) blank).0 ≡ ares_ok)
    × (aresfs_mount (ram_device []) done ≡ (
      ares_ok,
      mounted_with
          (ram_device [])
          (signed blank_superblock)
          (fs_memset 0 512)
          (fs_memset 0 512)
          done,
    ))
aresfs_mount-aresfs_unmount_example =
    aresfs_mount-aresfs_unmount (ram_device []) (ram_device-IsDevice []) ram_device-IsReliable blank
      refl blank-IsCached

new_file-IsInode : IsInode new_file
new_file-IsInode = record {
  mode = omega arith;
  uid = omega arith;
  gid = omega arith;
  size = omega arith;
  create_time = omega arith;
  mod_time = omega arith;
  direct = ground arith;
  indirect = omega arith;
  double_indirect = omega arith;
  length_direct = refl;
  length_pad = refl;
}

file_written : (inode_write (ram_device []) 5 new_file blank).0 ≡ ares_ok
file_written =
    inode_write-reliable (ram_device []) (ram_device-IsDevice []) 5 new_file blank
      ram_device-IsReliable (omega arith)

inode_read-inode_write_example :
    inode_read (ram_device []) (inode_write (ram_device []) 5 new_file blank).1 5 ≡ ok new_file
inode_read-inode_write_example =
    inode_read-inode_write (ram_device []) (ram_device-IsDevice []) 5 new_file blank
      new_file-IsInode file_written

inode_read-inode_write_ne_example :
    inode_read (ram_device []) (inode_write (ram_device []) 5 new_file blank).1 6
    ≡ inode_read (ram_device []) blank 6
inode_read-inode_write_ne_example =
    inode_read-inode_write_ne (ram_device []) (ram_device-IsDevice []) 5 6 new_file blank
      new_file-IsInode file_written (omega arith)

-- the bitmap of a fresh file system
abbrev fresh : Fs (ℕ → List ℕ)
fresh = record blank { block_bitmap = format_block_bitmap }

fresh-IsReserved : IsReserved format_block_bitmap
unfolding reserve_blocks Bitmap.test Bitmap.set_one sweep bit set_bit
fresh-IsReserved i h = sweep-holds 133 (bitmap_test format_block_bitmap) refl i (omega arith)

length-fresh : length format_block_bitmap ≡ 512
unfolding reserve_blocks Bitmap.set_one
length-fresh = refl

alloc_block-IsFirstFree_example :
    ((alloc_block (ram_device []) fresh ≡ (0, fresh))
      × ((j : ℕ) → j < total_blocks → bitmap_test format_block_bitmap j ≡ true))
    ⊎ ((b : ℕ) × Takes (ram_device []) fresh b)
alloc_block-IsFirstFree_example =
    alloc_block-IsFirstFree (ram_device []) (ram_device-IsDevice []) ram_device-IsReliable fresh
      length-fresh

alloc_block-IsReserved_example :
    (((alloc_block (ram_device []) fresh).0 ≡ 0)
      ⊎ ((data_start_block < (alloc_block (ram_device []) fresh).0)
          × ((alloc_block (ram_device []) fresh).0 < total_blocks)))
    × IsReserved (alloc_block (ram_device []) fresh).1.block_bitmap
alloc_block-IsReserved_example =
    alloc_block-IsReserved (ram_device []) (ram_device-IsDevice []) ram_device-IsReliable fresh
      length-fresh fresh-IsReserved

abbrev one_used : Fs (ℕ → List ℕ)
one_used = record blank { block_bitmap = bitmap_set (fs_memset 0 512) 0 }

zeros-IsWords : IsWords 8 (fs_memset 0 512)
zeros-IsWords k = omega (arith, get_or-replicate {A = ℕ} 512 0 k)

block_one : (alloc_block (ram_device []) one_used).0 ≢ 0
unfolding alloc_block bitmap_find_first_free first_free_from Bitmap.test Bitmap.set_one bit set_bit
block_one = ground arith

free_block-alloc_block_example :
    (free_block
      (ram_device [])
      (alloc_block (ram_device []) one_used).0
      (alloc_block (ram_device []) one_used).1).block_bitmap
    ≡ bitmap_set (fs_memset 0 512) 0
free_block-alloc_block_example =
    free_block-alloc_block (ram_device []) (ram_device-IsDevice []) ram_device-IsReliable one_used
      (Bitmap.length-set_one 8 (fs_memset 0 512) 0)
      (Bitmap.set_one-IsWords 8 (omega arith) (fs_memset 0 512) 0 zeros-IsWords) block_one

lookup_path-resolve_example :
    lookup_path (ram_device []) blank (some (47 ∷ 97 ∷ 47 ∷ 98 ∷ []))
    ≡ resolve (ram_device []) blank root_inode (components (47 ∷ 97 ∷ 47 ∷ 98 ∷ []))
lookup_path-resolve_example = lookup_path-resolve (ram_device []) blank (47 ∷ 97 ∷ 47 ∷ 98 ∷ [])

third_closed : (aresfs_close (ram_device []) 3 blank).0 ≡ ares_ok
unfolding aresfs_close
third_closed = refl

aresfs_close-IsClosed_example :
    IsClosed (ram_device []) 3 (aresfs_close (ram_device []) 3 blank).1
    × ((other : ℕ)
        → 3 ≢ other
        → entry_of (aresfs_close (ram_device []) 3 blank).1.fds other ≡ entry_of blank.fds other)
aresfs_close-IsClosed_example = aresfs_close-IsClosed (ram_device []) 3 blank refl third_closed

-- 7680 bytes: sevens in block 200, which is the third of the indirect block 199, and holes but for it
abbrev pointers : List ℕ
pointers = set (replicate 512 0) 8 200

abbrev stored : Fs (ℕ → List ℕ)
stored = record blank {
  disk = λ (k : ℕ).
      if k == base_lba + 200 then replicate 512 7 else if k == base_lba + 199 then pointers else [];
}

abbrev sparse : Inode
sparse = record new_file { size = 7680; direct = replicate 12 0; indirect = 199 }

-- the block of each of the 15 places is block 200 or a hole
is_held : ℕ → Bool
is_held l = let b = block_of (ram_device []) stored sparse pointers l in (b == 0) || (b == 200)
