-- ===== src/Fs/Names.antt =====
-- Paths in fs/aresfs.c: the walk of "/a/b/c" from the root. A path is the list of its characters
-- before the NUL. A loop over the components of a path runs on fuel, a round for each character;
-- out of fuel it answers that there is no such entry.
pub mod Components
pub mod Resolve
use ares_os.Prelude.{
  ℕ, zero, suc, ◌+◌, Bool, true, false, not, ◌||◌, Option, none, some, List, [], ◌∷◌, ◌==◌, leb,
  length, if◌then◌else◌,
}
use ares_os.Fs.Layout.{inode_invalid, root_inode, name_max}
use ares_os.Fs.Device.{Device}
use ares_os.Fs.State.{Fs, ok, fail}
use ares_os.Fs.Inodes.{inode_read}
use ares_os.Fs.Dir.{dir_find_entry, is_dir}

abbrev pub slash : ℕ
slash = 47

-- `while (*path == '/') path++;`
unfoldable pub skip_slashes : List ℕ → List ℕ
skip_slashes [] = []
skip_slashes (c ∷ p) = let rest = skip_slashes p in if c == slash then rest else c ∷ p

abbrev pub consed : ℕ → Option (List ℕ × List ℕ) → Option (List ℕ × List ℕ)
consed c none = none
consed c (some (name, p)) = some (c ∷ name, p)

-- The component at the front and what follows it; `none` when it is longer than a name may be.
unfoldable pub scan_name : ℕ → List ℕ → Option (List ℕ × List ℕ)
scan_name i [] = some ([], [])
scan_name i (c ∷ p) =
    let rest = scan_name (i + 1) p in
    if c == slash then some ([], c ∷ p) else if leb name_max i then none else consed c rest

-- `*path == '\0'`, and `*path == '/'`
abbrev pub is_end : List ℕ → Bool
is_end [] = true
is_end (c ∷ p) = false

abbrev pub at_slash : List ℕ → Bool
at_slash [] = false
at_slash (c ∷ p) = c == slash

module _ (dev : Device) where
  -- `while (*path != '\0')` of lookup_path
  unfoldable pub lookup_loop : ℕ → Fs dev.State → List ℕ → ℕ → ℕ
  lookup_loop zero fs [] cur = cur
  lookup_loop zero fs (c ∷ p) cur = inode_invalid
  lookup_loop (suc fuel) fs [] cur = cur
  lookup_loop (suc fuel) fs (c ∷ p) cur = elim (scan_name 0 (c ∷ p)) [
    | none ↦ inode_invalid
    | some w ↦
        let next = dir_find_entry dev fs cur w.0 in
        elim (next == inode_invalid) [
          | true ↦ inode_invalid
          | false ↦ lookup_loop fuel fs (skip_slashes w.1) next
        ]
  ]

  unfoldable pub lookup_path : Fs dev.State → Option (List ℕ) → ℕ
  lookup_path fs none = inode_invalid
  lookup_path fs (some path) =
      lookup_loop (length (skip_slashes path)) fs (skip_slashes path) root_inode

  -- Whether an inode can be read and is a directory.
  unfoldable pub holds_dir : Fs dev.State → ℕ → Bool
  holds_dir fs n = elim (inode_read dev fs n) [ fail st ↦ false | ok ino ↦ is_dir ino ]

  -- `while (*p != '\0')` of split_parent_leaf
  unfoldable pub split_loop : ℕ → Fs dev.State → List ℕ → ℕ → Option (ℕ × List ℕ)
  split_loop zero fs p parent = none
  split_loop (suc fuel) fs p parent = elim (scan_name 0 p) [
    | none ↦ none
    | some w ↦ elim (not (at_slash w.1) || is_end (skip_slashes w.1)) [
      | true ↦ some (parent, w.0)
      | false ↦
          let next = dir_find_entry dev fs parent w.0 in
          elim ((next == inode_invalid) || not (holds_dir fs next)) [
            | true ↦ none
            | false ↦ split_loop fuel fs (skip_slashes w.1) next
          ]
    ]
  ]

  unfoldable pub split_parent_leaf : Fs dev.State → Option (List ℕ) → Option (ℕ × List ℕ)
  split_parent_leaf fs none = none
  split_parent_leaf fs (some path) =
      if is_end (skip_slashes path)
      then none
      else elim (split_loop (length path) fs (skip_slashes path) root_inode) [
        | none ↦ none
        | some r ↦ if is_end r.1 then none else some r
      ]
