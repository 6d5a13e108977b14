-- ===== src/Fs/Files.antt =====
-- The calls on descriptors in fs/aresfs.c. An `int` is a word of 32 bits, -1 being 2^32 - 1, so a
-- negative descriptor is beyond the table. A NULL path or buffer is `none`.
pub mod Descriptors
use ares_os.Prelude.{
  ℕ, zero, suc, ◌+◌, ◌-◌, ◌%◌, ◌^◌, Bool, true, false, not, ◌&&◌, ◌||◌, Option, none, some, List,
  [], ◌∷◌, ◌==◌, leb, ltb, length, get_or, set, bit_and, bit_or, if◌then◌else◌,
}
use ares_os.Fs.Layout.{
  AresStatus, ares_ok, ares_einval, Inode, zero_inode, inode_invalid, type_mask, type_file,
  perm_default, max_open_files,
}
use ares_os.Fs.Device.{Device}
use ares_os.Fs.State.{Fs, FdEntry, free_entry, ok, fail, is_ok}
use ares_os.Fs.Alloc.{alloc_inode, free_inode}
use ares_os.Fs.Inodes.{inode_read, inode_write}
use ares_os.Fs.Blocks.{inode_truncate}
use ares_os.Fs.Dir.{dir_add_entry}
use ares_os.Fs.Names.{lookup_path, split_parent_leaf}
use ares_os.Fs.Body.{file_read_body, file_write_body}

abbrev pub o_rdonly : ℕ
o_rdonly = 0

abbrev pub o_wronly : ℕ
o_wronly = 1

abbrev pub o_creat : ℕ
o_creat = 0x40

abbrev pub o_trunc : ℕ
o_trunc = 0x200

abbrev pub o_append : ℕ
o_append = 0x400

abbrev pub minus_one : ℕ
minus_one = 2 ^ 32 - 1

-- `(flags & flag) != 0`
abbrev pub has_flag : ℕ → ℕ → Bool
has_flag flags flag = not (bit_and flags flag == 0)

abbrev pub entry_of : List FdEntry → ℕ → FdEntry
entry_of fds fd = get_or fds fd free_entry

-- `for (; i < ARESFS_MAX_OPEN_FILES; i++)`
abbrev pub fd_from : ℕ → List FdEntry → Option ℕ
fd_from i [] = none
fd_from i (e ∷ es) = let rest = fd_from (i + 1) es in if not e.used then some i else rest

abbrev pub fd_alloc : List FdEntry → Option ℕ
fd_alloc fds = fd_from 0 fds

abbrev pub new_file : Inode
new_file = record zero_inode { mode = bit_or type_file perm_default }

-- `(ino.mode & ARESFS_TYPE_MASK) != ARESFS_TYPE_FILE`, denied
abbrev pub is_file : Inode → Bool
is_file ino = bit_and ino.mode type_mask == type_file

module _ (dev : Device) where
  -- The number and the inode of the file that an open is about, or -1.
  abbrev pub Opened : Type 0
  Opened = Option (ℕ × Inode) × Fs dev.State

  -- The path names nothing: a new file.
  unfoldable pub create_file : Option (List ℕ) → (flags : ℕ) → Fs dev.State → Opened
  create_file path flags fs =
      if not (has_flag flags o_creat) then (none, fs) else elim (split_parent_leaf dev fs path) [
        | none ↦ (none, fs)
        | some r ↦
            let (n, fs1) = alloc_inode dev fs in
            if n == inode_invalid
            then (none, fs1)
            else (let (st, fs2) = inode_write dev n new_file fs1 in
                if not (is_ok st)
                then (none, free_inode dev n fs2)
                else (let (st, fs3) = dir_add_entry dev r.0 r.1 n fs2 in
                    if not (is_ok st)
                    then (none, free_inode dev n fs3)
                    else (some (n, new_file), fs3)))
      ]

  -- The path names inode `n`.
  unfoldable pub open_file : (n flags : ℕ) → Fs dev.State → Opened
  open_file n flags fs = elim (inode_read dev fs n) [
    | fail st ↦ (none, fs)
    | ok ino ↦
        if not (is_file ino)
        then (none, fs)
        else if not (has_flag flags o_trunc)
        then (some (n, ino), fs)
        else (let (ino1, fs1) = inode_truncate dev ino fs in
            let (st, fs2) = inode_write dev n ino1 fs1 in
            if not (is_ok st) then (none, fs2) else (some (n, ino1), fs2))
  ]

  -- A descriptor for the file.
  unfoldable pub bind_fd : (flags : ℕ) → Opened → ℕ × Fs dev.State
  bind_fd flags (none, fs) = (minus_one, fs)
  bind_fd flags (some (n, ino), fs) = elim (fd_alloc fs.fds) [
    | none ↦ (minus_one, fs)
    | some fd ↦
        let pos = if has_flag flags o_append then ino.size else 0 in
        let e : FdEntry = record { used = true; inode_num = n; pos = pos; flags = flags } in
        (fd, record fs { fds = set fs.fds fd e })
  ]

  unfoldable pub aresfs_open : Option (List ℕ) → (flags : ℕ) → Fs dev.State → ℕ × Fs dev.State
  aresfs_open none flags fs = (minus_one, fs)
  aresfs_open (some path) flags fs =
      if not fs.mounted
      then (minus_one, fs)
      else let n = lookup_path dev fs (some path) in
        bind_fd flags
          (if n == inode_invalid then create_file (some path) flags fs else open_file n flags fs)

  unfoldable pub aresfs_close : (fd : ℕ) → Fs dev.State → AresStatus × Fs dev.State
  aresfs_close fd fs =
      if leb max_open_files fd
      then (ares_einval, fs)
      else if not (entry_of fs.fds fd).used
      then (ares_einval, fs)
      else (ares_ok, record fs { fds = set fs.fds fd free_entry })

  -- `if (n > 0) g_fds[fd].pos += (uint64_t)n;`
  abbrev pub advance : (fd n : ℕ) → Fs dev.State → Fs dev.State
  advance fd n fs =
      let e = entry_of fs.fds fd in
      if ltb 0 n && ltb n (2 ^ 31)
      then record fs { fds = set fs.fds fd (record e { pos = (e.pos + n) % 2 ^ 64 }) }
      else fs

  -- A read answers with its result and the bytes it stores.
  unfoldable pub aresfs_read : (fd count : ℕ) → Fs dev.State → ℕ × (List ℕ × Fs dev.State)
  aresfs_read fd count fs =
      if not fs.mounted
      then (minus_one, ([], fs))
      else if leb max_open_files fd
      then (minus_one, ([], fs))
      else let e = entry_of fs.fds fd in
        if not e.used
        then (minus_one, ([], fs))
        else if bit_and e.flags 3 == o_wronly
        then (minus_one, ([], fs))
        else elim (inode_read dev fs e.inode_num) [
          | fail st ↦ (minus_one, ([], fs))
          | ok ino ↦ elim (file_read_body dev fs ino e.pos count) [
            | none ↦ (minus_one, ([], fs))
            | some (n, bs) ↦ (n, (bs, advance fd n fs))
          ]
        ]

  -- `g_fds[fd].pos = ino.size` for a descriptor that appends
  abbrev pub seek_end : (fd : ℕ) → Inode → Fs dev.State → Fs dev.State
  seek_end fd ino fs =
      let e = entry_of fs.fds fd in
      if has_flag e.flags o_append
      then record fs { fds = set fs.fds fd (record e { pos = ino.size }) }
      else fs

  unfoldable pub aresfs_write : (fd : ℕ) (src : List ℕ) → Fs dev.State → ℕ × Fs dev.State
  aresfs_write fd src fs =
      if not fs.mounted
      then (minus_one, fs)
      else if leb max_open_files fd
      then (minus_one, fs)
      else let e = entry_of fs.fds fd in
        if not e.used
        then (minus_one, fs)
        else if bit_and e.flags 3 == o_rdonly
        then (minus_one, fs)
        else elim (inode_read dev fs e.inode_num) [
          | fail st ↦ (minus_one, fs)
          | ok ino ↦
              let fs1 = seek_end fd ino fs in
              let (n, (ino1, fs2)) =
                file_write_body dev e.inode_num ino (entry_of fs1.fds fd).pos src fs1 in
              elim n [ none ↦ (minus_one, fs2) | some k ↦ (k, advance fd k fs2) ]
        ]
