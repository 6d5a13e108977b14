-- ===== src/Fs/Names/Resolve.antt =====
-- lookup_path against a definition by the components of the path.
use ares_os.Prelude.{
  ℕ, zero, suc, ◌+◌, ◌≤◌, ◌≡◌, refl, sym, ap, ◌∙◌, Bool, true, false, none, some, List, [], ◌∷◌,
  length, ◌==◌, leb, if◌then◌else◌, Bool-cases, inl, inr, arith,
}
use ares_os.Fs.Layout.{name_max, inode_invalid, root_inode}
use ares_os.Fs.Device.{Device}
use ares_os.Fs.State.{Fs}
use ares_os.Fs.Dir.{dir_find_entry}
use ares_os.Fs.Names.{at_slash, skip_slashes, scan_name, lookup_loop, lookup_path}
use ares_os.Fs.Names.Components.{
  pieces, components, word, after, scan_name-word, components-skip_slashes, components-word,
  length-skip_slashes, length-after, at_slash-skip_slashes,
}

module _ (dev : Device) where
  -- Each name in turn is looked up in the directory that the one before it led to; a name that is too
  -- long, or that is not there, ends the walk with the invalid inode.
  unfoldable pub resolve : Fs dev.State → ℕ → List (List ℕ) → ℕ
  resolve fs cur [] = cur
  resolve fs cur (w ∷ ws) =
      let next = dir_find_entry dev fs cur w in
      let rest = resolve fs next ws in
      if leb (length w) name_max
      then if next == inode_invalid then inode_invalid else rest
      else inode_invalid

  scan_front :
      (c : ℕ) (p : List ℕ) (b : Bool)
      → leb (length (word (c ∷ p))) name_max ≡ b
      → scan_name 0 (c ∷ p) ≡ (if b then some (word (c ∷ p), after (c ∷ p)) else none)
  scan_front c p b e =
      let start : 0 + length (word (c ∷ p)) ≡ length (word (c ∷ p)) = omega arith in
      scan_name-word 0 (c ∷ p) (omega arith)
      ∙ ap (λ t. if leb t name_max then some (word (c ∷ p), after (c ∷ p)) else none) start
      ∙ ap (λ (t : Bool). if t then some (word (c ∷ p), after (c ∷ p)) else none) e

  resolve-word :
      (fs : Fs dev.State) (cur : ℕ) (w : List ℕ) (ws : List (List ℕ)) (long missing : Bool)
      → leb (length w) name_max ≡ long
      → (dir_find_entry dev fs cur w == inode_invalid) ≡ missing
      → resolve fs cur (w ∷ ws) ≡ (
          if long
          then if missing then inode_invalid else resolve fs (dir_find_entry dev fs cur w) ws
          else inode_invalid)
  unfolding resolve
  resolve-word fs cur w ws long missing e f = rw (e, f)

  resolve_end : (fs : Fs dev.State) (cur : ℕ) → resolve fs cur (components []) ≡ cur
  unfolding resolve pieces
  resolve_end fs cur = refl

  lookup_loop-resolve :
      (fuel : ℕ) (fs : Fs dev.State) (p : List ℕ) (cur : ℕ)
      → length p ≤ fuel
      → at_slash p ≡ false
      → lookup_loop dev fuel fs p cur ≡ resolve fs cur (components p)
  unfolding lookup_loop
  lookup_loop-resolve zero fs [] cur h n = sym (resolve_end fs cur)
  lookup_loop-resolve zero fs (c ∷ p) cur h n = absurd (omega arith)
  lookup_loop-resolve (suc fuel) fs [] cur h n = sym (resolve_end fs cur)
  lookup_loop-resolve (suc fuel) fs (c ∷ p) cur h n =
      let w : List ℕ = word (c ∷ p) in
      let r : List ℕ = after (c ∷ p) in
      let found : ℕ = dir_find_entry dev fs cur w in
      let shorter : length r ≤ length p = rw n (length-after p) in
      let rest =
        lookup_loop-resolve fuel fs (skip_slashes r) found
          (omega (arith, shorter, length-skip_slashes r)) (at_slash-skip_slashes r)
        ∙ ap (resolve fs found) (components-skip_slashes r) in
      let end =
        λ (long missing : Bool) (e : leb (length w) name_max ≡ long)
            (f : (found == inode_invalid) ≡ missing).
          sym (resolve-word fs cur w (components r) long missing e f)
          ∙ ap (resolve fs cur) (sym (components-word c p n)) in
      elim (Bool-cases (leb (length w) name_max)) [
        | inr long ↦
            rw (scan_front c p false long, lookup_loop)
              (elim (Bool-cases (found == inode_invalid)) [
                | inl f ↦ end false true long f
                | inr f ↦ end false false long f
              ])
        | inl fits ↦
            rw (scan_front c p true fits, lookup_loop)
              (elim (Bool-cases (found == inode_invalid)) [
                | inl f ↦ rw f (end true true fits f)
                | inr f ↦ rw f (rest ∙ end true false fits f)
              ])
      ]

  -- For every path lookup_path answers what its components lead to from the root, one directory after
  -- the other; the fuel of its loop is enough.
  pub lookup_path-resolve :
      (fs : Fs dev.State) (path : List ℕ)
      → lookup_path dev fs (some path) ≡ resolve fs root_inode (components path)
  unfolding lookup_path
  lookup_path-resolve fs path =
      lookup_loop-resolve (length (skip_slashes path)) fs (skip_slashes path) root_inode
        (omega arith) (at_slash-skip_slashes path)
      ∙ ap (resolve fs root_inode) (components-skip_slashes path)
