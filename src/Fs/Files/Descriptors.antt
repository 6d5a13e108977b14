-- ===== src/Fs/Files/Descriptors.antt =====
-- The table of descriptors.
use mathlib.Core.Path.{subst}
use ares_os.Prelude.{
  ℕ, ◌<◌, ◌≡◌, ◌≢◌, sym, ap, ◌∙◌, true, false, List, [], length, set, get_or-set_self,
  get_or-set_ne, leb, Bool-cases, inl, inr, arith,
}
use ares_os.Fs.Layout.{ares_ok, ares_einval, max_open_files}
use ares_os.Fs.Device.{Device}
use ares_os.Fs.State.{Fs, FdEntry, free_entry}
use ares_os.Fs.Files.{minus_one, entry_of, aresfs_close, aresfs_read, aresfs_write}

module _ (dev : Device) where
  -- A descriptor that is not in use can not be read, written or closed.
  pub record IsClosed (fd : ℕ) (fs : Fs dev.State) : Type 0 where
    pub read : (count : ℕ) → aresfs_read dev fd count fs ≡ (minus_one, ([], fs))
    pub write : (src : List ℕ) → aresfs_write dev fd src fs ≡ (minus_one, fs)
    pub close : aresfs_close dev fd fs ≡ (ares_einval, fs)

  unused-IsClosed :
      (fd : ℕ) (fs : Fs dev.State) → (entry_of fs.fds fd).used ≡ false → IsClosed fd fs
  unfolding aresfs_read aresfs_write aresfs_close
  unused-IsClosed fd fs u = record {
    read = λ count. elim (Bool-cases fs.mounted) [
      | inr off ↦ rw off
      | inl on ↦ elim (Bool-cases (leb max_open_files fd)) [
        | inl out ↦ rw (on, out)
        | inr inside ↦ rw (on, inside, u)
      ]
    ];
    write = λ src. elim (Bool-cases fs.mounted) [
      | inr off ↦ rw off
      | inl on ↦ elim (Bool-cases (leb max_open_files fd)) [
        | inl out ↦ rw (on, out)
        | inr inside ↦ rw (on, inside, u)
      ]
    ];
    close = elim (Bool-cases (leb max_open_files fd)) [
      | inl out ↦ rw out
      | inr inside ↦ rw (inside, u)
    ];
  }

  aresfs_close-hit :
      (fd : ℕ) (fs : Fs dev.State)
      → (aresfs_close dev fd fs).0 ≡ ares_ok
      → (fd < max_open_files)
        × (aresfs_close dev fd fs ≡ (ares_ok, record fs { fds = set fs.fds fd free_entry }))
  unfolding aresfs_close
  aresfs_close-hit fd fs h = elim (Bool-cases (leb max_open_files fd)) [
    | inl out ↦ absurd (ground arith)
    | inr inside ↦ elim (Bool-cases (entry_of fs.fds fd).used) [
      | inl used ↦ (ground arith, rw (inside, used))
      | inr idle ↦ absurd (ground arith)
    ]
  ]

  -- With a table of 16 descriptors: after an aresfs_close that succeeds, read and write of that descriptor
  -- answer -1, a second close answers ARES_EINVAL, none of them changes anything, and every other
  -- descriptor is as it was.
  pub aresfs_close-IsClosed :
      (fd : ℕ) (fs : Fs dev.State)
      → length fs.fds ≡ max_open_files
      → (aresfs_close dev fd fs).0 ≡ ares_ok
      → IsClosed fd (aresfs_close dev fd fs).1
        × ((other : ℕ)
            → fd ≢ other
            → entry_of (aresfs_close dev fd fs).1.fds other ≡ entry_of fs.fds other)
  aresfs_close-IsClosed fd fs size h =
      let (inside, e) = aresfs_close-hit fd fs h in
      let end : Fs dev.State = record fs { fds = set fs.fds fd free_entry } in
      let idle : entry_of end.fds fd ≡ free_entry =
        get_or-set_self fs.fds fd free_entry free_entry (omega (arith, size)) in
      (
        subst (λ t. IsClosed fd t) (sym (ap (λ t. t.1) e))
            (unused-IsClosed fd end (ap (λ (t : FdEntry). t.used) idle)),
        λ other d.
            ap (λ t. entry_of t.1.fds other) e ∙ get_or-set_ne fs.fds free_entry free_entry d,
      )

  -- `fd` is the lowest descriptor that is not in use.
  pub record IsLowestFd (fds : List FdEntry) (fd : ℕ) : Type 0 where
    pub inside : fd < length fds
    pub idle : (entry_of fds fd).used ≡ false
    pub lower : (k : ℕ) → k < fd → (entry_of fds k).used ≡ true
