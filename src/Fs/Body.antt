-- ===== src/Fs/Body.antt =====
-- The body of a file in fs/aresfs.c. The loops run on fuel, a round for each byte of the request; a
-- read answers with its result and the bytes it stores, a write with their number, and -1 is `none`. A
-- write stores less than 2^31 bytes, so that its `(int)done` is the number itself.
pub mod Content
pub mod Extent
use ares_os.Prelude.{
  ℕ, zero, suc, ◌+◌, ◌-◌, ◌*◌, ◌/◌, ◌%◌, ◌^◌, Bool, true, false, Option, none, some, List, [], ◌++◌,
  ◌==◌, leb, ltb, length, take, drop, if◌then◌else◌,
}
use ares_os.Fs.Bytes.{fs_memset, fs_memcpy, slice}
use ares_os.Fs.Layout.{Inode, block_size, max_file_blocks}
use ares_os.Fs.Device.{Device}
use ares_os.Fs.State.{Fs, ok, fail, block_read, block_write, is_ok}
use ares_os.Fs.Inodes.{inode_write}
use ares_os.Fs.Blocks.{inode_resolve_block}

abbrev pub logical_of : ℕ → ℕ
logical_of off = off / block_size % 2 ^ 32

abbrev pub chunk_of : ℕ → ℕ → ℕ
chunk_of off left =
    if ltb left (block_size - off % block_size) then left else block_size - off % block_size

module _ (dev : Device) where
  -- The bytes of one round: of the block at `off`, or zeros for a hole.
  unfoldable pub read_chunk : Fs dev.State → Inode → (off chunk : ℕ) → Option (List ℕ)
  read_chunk fs ino off chunk =
      let phys = (inode_resolve_block dev ino (logical_of off) false fs).0 in
      if phys == 0 then some (fs_memset 0 chunk) else elim (block_read dev fs phys) [
        | fail st ↦ none
        | ok block ↦ some (slice (off % block_size) chunk block)
      ]

  unfoldable pub read_loop : ℕ → Fs dev.State → Inode → (off left : ℕ) → Option (List ℕ)
  read_loop fuel fs ino off zero = some []
  read_loop zero fs ino off (suc left) = some []
  read_loop (suc fuel) fs ino off (suc left) =
      let chunk = chunk_of off (suc left) in
      let rest = read_loop fuel fs ino (off + chunk) (suc left - chunk) in
      elim (read_chunk fs ino off chunk) [
        | none ↦ none
        | some bs ↦ elim rest [ none ↦ none | some more ↦ some (bs ++ more) ]
      ]

  -- `return (int)done` with the bytes that were stored; an int is the 32-bit word that it has
  unfoldable pub file_read_body : Fs dev.State → Inode → (pos count : ℕ) → Option (ℕ × List ℕ)
  file_read_body fs ino pos count =
      if leb ino.size pos
      then some (0, [])
      else let n = if ltb (ino.size - pos) count then ino.size - pos else count in
        elim (read_loop n fs ino pos n) [ none ↦ none | some bs ↦ some (length bs % 2 ^ 32, bs) ]

  -- What a round of the write stores in the block, from the block read where it writes a part.
  unfoldable pub write_chunk :
      (phys block_off : ℕ) (bytes : List ℕ) → Fs dev.State → Bool × Fs dev.State
  write_chunk phys block_off bytes fs =
      if length bytes == block_size
      then (let (st, fs1) = block_write dev phys bytes fs in (is_ok st, fs1))
      else elim (block_read dev fs phys) [
        | fail st ↦ (false, fs)
        | ok block ↦
            let (st, fs1) = block_write dev phys (fs_memcpy block_off bytes block) fs in
            (is_ok st, fs1)
      ]

  -- How the loop ends, with the inode as it stands then.
  pub record Written : Type 0 where
    pub failed : Bool
    pub done : ℕ
    pub inode : Inode
    pub state : Fs dev.State

  unfoldable pub write_loop : ℕ → (off done : ℕ) → List ℕ → Inode → Fs dev.State → Written
  write_loop zero off done src ino fs = record {
    failed = false;
    done = done;
    inode = ino;
    state = fs;
  }
  write_loop (suc fuel) off done src ino fs = elim (length src == 0) [
    | true ↦ record { failed = false; done = done; inode = ino; state = fs }
    | false ↦
        let (phys, (ino1, fs1)) = inode_resolve_block dev ino (logical_of off) true fs in
        elim (phys == 0) [
          | true ↦ record { failed = false; done = done; inode = ino1; state = fs1 }
          | false ↦
              let chunk = chunk_of off (length src) in
              let (written, fs2) = write_chunk phys (off % block_size) (take chunk src) fs1 in
              elim written [
                | false ↦ record { failed = true; done = done; inode = ino1; state = fs2 }
                | true ↦ write_loop fuel (off + chunk) (done + chunk) (drop chunk src) ino1 fs2
              ]
        ]
  ]

  unfoldable pub file_write_body :
      (n : ℕ) → Inode → (pos : ℕ) → List ℕ → Fs dev.State → Option ℕ × (Inode × Fs dev.State)
  file_write_body n ino pos src fs =
      let max_size = max_file_blocks * block_size in
      if leb max_size pos
      then (none, (ino, fs))
      else (let src =
            if ltb (max_size - pos) (length src) then take (max_size - pos) src else src in
          let w = write_loop (length src) pos 0 src ino fs in
          if w.failed
          then (none, (w.inode, w.state))
          else (let end = pos + w.done in
              let ino1 = if ltb w.inode.size end then record w.inode { size = end } else w.inode in
              let (st, fs1) = inode_write dev n ino1 w.state in
              (if is_ok st then some w.done else none, (ino1, fs1))))
