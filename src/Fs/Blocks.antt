-- ===== src/Fs/Blocks.antt =====
-- The block map of a file in fs/aresfs.c: 12 direct blocks and one block of 128 pointers.
use ares_os.Prelude.{
  ℕ, ◌-◌, ◌*◌, Bool, not, ◌&&◌, List, [], ◌∷◌, map, ◌==◌, leb, ltb, if◌then◌else◌, get_or, set,
}
use ares_os.Fs.Bytes.{fs_memset, fs_memcpy, le_at, le_bytes, words_value}
use ares_os.Fs.Layout.{Inode, block_size, direct_blocks, indirect_ptrs}
use ares_os.Fs.Device.{Device}
use ares_os.Fs.State.{Fs, ok, fail, block_read, block_write}
use ares_os.Fs.Alloc.{alloc_block, free_block}

module _ (dev : Device) where
  -- A new block, filled with zeros on the disk; 0 when there is none.
  unfoldable pub fresh_block : Fs dev.State → ℕ × Fs dev.State
  fresh_block fs =
      let (b, fs1) = alloc_block dev fs in
      if b == 0 then (0, fs1) else (b, (block_write dev b (fs_memset 0 block_size) fs1).1)

  -- `logical_idx < ARESFS_DIRECT_BLOCKS`
  unfoldable pub resolve_direct : Inode → ℕ → Bool → Fs dev.State → ℕ × (Inode × Fs dev.State)
  resolve_direct ino k create fs =
      if (get_or ino.direct k 0 == 0) && create
      then (let (b, fs1) = fresh_block fs in
          if b == 0
          then (0, (ino, fs1))
          else (b, (record ino { direct = set ino.direct k b }, fs1)))
      else (get_or ino.direct k 0, (ino, fs))

  -- The pointer `off` of the indirect block, whose contents are `ind`.
  unfoldable pub resolve_pointer :
      Inode → ℕ → Bool → List ℕ → Fs dev.State → ℕ × (Inode × Fs dev.State)
  resolve_pointer ino off create ind fs =
      if (le_at 4 (off * 4) ind == 0) && create
      then (let (b, fs1) = fresh_block fs in
          if b == 0
          then (0, (ino, fs1))
          else let ind1 = fs_memcpy (off * 4) (le_bytes 4 b) ind in
            (b, (ino, (block_write dev ino.indirect ind1 fs1).1)))
      else (le_at 4 (off * 4) ind, (ino, fs))

  unfoldable pub resolve_indirect : Inode → ℕ → Bool → Fs dev.State → ℕ × (Inode × Fs dev.State)
  resolve_indirect ino off create fs =
      if leb indirect_ptrs off
      then (0, (ino, fs))
      else if ino.indirect == 0
      then if not create
        then (0, (ino, fs))
        else (let (b, fs1) = fresh_block fs in
            if b == 0
            then (0, (ino, fs1))
            else resolve_pointer (record ino { indirect = b }) off create (fs_memset 0 block_size)
                fs1)
      else elim (block_read dev fs ino.indirect) [
        | fail st ↦ (0, (ino, fs))
        | ok ind ↦ resolve_pointer ino off create ind fs
      ]

  unfoldable pub inode_resolve_block : Inode → ℕ → Bool → Fs dev.State → ℕ × (Inode × Fs dev.State)
  inode_resolve_block ino logical_idx create fs =
      if ltb logical_idx direct_blocks
      then resolve_direct ino logical_idx create fs
      else resolve_indirect ino (logical_idx - direct_blocks) create fs

  -- `if (p != 0U) free_block(p)` for each of the pointers
  unfoldable pub free_blocks : List ℕ → Fs dev.State → Fs dev.State
  free_blocks [] fs = fs
  free_blocks (p ∷ ps) fs = free_blocks ps (if p == 0 then fs else free_block dev p fs)

  -- The blocks that the indirect block names, when it can be read.
  unfoldable pub free_pointers : ℕ → Fs dev.State → Fs dev.State
  free_pointers indirect fs = elim (block_read dev fs indirect) [
    | fail st ↦ fs
    | ok buf ↦ free_blocks (words_value indirect_ptrs buf) fs
  ]

  unfoldable pub inode_truncate : Inode → Fs dev.State → Inode × Fs dev.State
  inode_truncate ino fs =
      let fs1 = free_blocks ino.direct fs in
      let ino1 = record ino { direct = map (λ (p : ℕ). 0) ino.direct; indirect = 0; size = 0 } in
      if ino.indirect == 0
      then (ino1, fs1)
      else (ino1, free_block dev ino.indirect (free_pointers ino.indirect fs1))
