-- ===== src/Fs/Dir/Entries.antt =====
-- Entries in a block of a directory: what one write does to the eight of them, and names.
use ares_os.Prelude.{
  ℕ, zero, suc, ◌+◌, ◌*◌, ◌^◌, ◌≤◌, ◌<◌, ◌≡◌, ◌≢◌, refl, sym, ap, ◌∙◌, true, false, not, ◌&&◌, List,
  [], ◌∷◌, ◌++◌, All, length, take, drop, replicate, length-append, ◌==◌, ltb, if◌then◌else◌,
  Bool-cases, ◌⊎◌, inl, inr, arith,
}
use ares_os.Fs.Bytes.{le_bytes, le_value, fs_memset, fs_memcpy, slice, fs_strlen, fs_strcmp}
use ares_os.Fs.Bytes.Copy.{take_all, length-fs_memcpy, slice-fs_memcpy, slice-fs_memcpy_apart}
use ares_os.Fs.Bytes.Words.{le_value-le_bytes, length-le_bytes}
use ares_os.Fs.Layout.{Dirent, dirent_at, put_dirent, dirent_set_name, dirent_size, name_max}

-- The word and the name of an entry fit it.
pub record IsDirent (de : Dirent) : Type 0 where
  pub inode : de.inode < 256 ^ 4
  pub name : length de.name ≡ 56

le_value-take : (n k : ℕ) (bs : List ℕ) → n ≤ k → le_value n (take k bs) ≡ le_value n bs
le_value-take zero k bs h = refl
le_value-take (suc n) zero bs h = absurd (omega arith)
le_value-take (suc n) (suc k) [] h = refl
le_value-take (suc n) (suc k) (b ∷ bs) h =
    ap (λ t. b + 256 * t) (le_value-take n k bs (omega arith))

drop_nothing : (n : ℕ) → drop {A = ℕ} n [] ≡ []
drop_nothing zero = refl
drop_nothing (suc n) = refl

drop-drop : (m n : ℕ) (bs : List ℕ) → drop m (drop n bs) ≡ drop (n + m) bs
drop-drop m zero bs = ap (λ t. drop t bs) (let e : m ≡ 0 + m = omega arith in e)
drop-drop m (suc n) [] = drop_nothing m ∙ sym (drop_nothing (suc n + m))
drop-drop m (suc n) (b ∷ bs) =
    drop-drop m n bs
    ∙ ap (λ t. drop t (b ∷ bs)) (let e : suc (n + m) ≡ suc n + m = omega arith in e)

take-take : (n : ℕ) (bs : List ℕ) → take n (take n bs) ≡ take n bs
take-take zero bs = refl
take-take (suc n) [] = refl
take-take (suc n) (b ∷ bs) = ap (λ t. b ∷ t) (take-take n bs)

take-drop : (m n k : ℕ) (bs : List ℕ) → m + n ≡ k → take n (drop m (take k bs)) ≡ take n (drop m bs)
take-drop zero n k bs e =
    ap (λ t. take n (take t bs)) (let e' : k ≡ n = omega arith in e') ∙ take-take n bs
take-drop (suc m) n zero bs e = absurd (omega arith)
take-drop (suc m) n (suc k) [] e = refl
take-drop (suc m) n (suc k) (b ∷ bs) e = take-drop m n k bs (omega arith)

-- The bytes of an entry.
dirent_of : List ℕ → Dirent
dirent_of bs = record { inode = le_value 4 bs; name = take 56 (drop 4 bs) }

dirent_at-slice :
    (buf : List ℕ) (slot : ℕ) → dirent_at buf slot ≡ dirent_of (slice (slot * dirent_size) 60 buf)
unfolding dirent_at dirent_of
dirent_at-slice buf slot = λ k. record {
  inode = sym (le_value-take 4 60 (drop (slot * dirent_size) buf) (omega arith)) k;
  name =
      (ap (take 56) (sym (drop-drop 4 (slot * dirent_size) buf))
          ∙ sym (take-drop 4 56 60 (drop (slot * dirent_size) buf) refl))
        k;
}

length-entry : (de : Dirent) → IsDirent de → length (le_bytes 4 de.inode ++ de.name) ≡ 60
length-entry de v = omega (arith, v.name)

dirent_of-entry : (de : Dirent) → IsDirent de → dirent_of (le_bytes 4 de.inode ++ de.name) ≡ de
unfolding dirent_of
dirent_of-entry de v = λ k. record {
  inode = le_value-le_bytes 4 de.inode [] v.inode k;
  name = take_all 56 de.name v.name k;
}

pub dirent_at-put_dirent :
    (buf : List ℕ) (slot : ℕ) (de : Dirent)
    → length buf ≡ 512
    → slot < 8
    → IsDirent de
    → dirent_at (put_dirent buf slot de) slot ≡ de
unfolding put_dirent dirent_of
dirent_at-put_dirent buf slot de size h v =
    dirent_at-slice (put_dirent buf slot de) slot
    ∙ ap dirent_of (
        slice-fs_memcpy (slot * dirent_size) 60 (le_bytes 4 de.inode ++ de.name) buf
          (length-entry de v) (omega (arith, size)))
    ∙ dirent_of-entry de v

slots_apart :
    (slot other k : ℕ)
    → other ≢ slot
    → k ≡ 60
    → (other * 60 + 60 ≤ slot * 60) ⊎ (slot * 60 + k ≤ other * 60)
slots_apart slot other k d e = elim (Bool-cases (ltb other slot)) [
  | inl less ↦ inl (let l : other < slot = ground arith in omega arith)
  | inr more ↦ inr (let l : slot < other = ground arith in omega arith)
]

pub dirent_at-put_dirent_ne :
    (buf : List ℕ) (slot other : ℕ) (de : Dirent)
    → length buf ≡ 512
    → slot < 8
    → other ≢ slot
    → IsDirent de
    → dirent_at (put_dirent buf slot de) other ≡ dirent_at buf other
unfolding put_dirent
dirent_at-put_dirent_ne buf slot other de size h d v =
    dirent_at-slice (put_dirent buf slot de) other
    ∙ ap dirent_of (
        slice-fs_memcpy_apart (other * dirent_size) 60 (slot * dirent_size)
          (le_bytes 4 de.inode ++ de.name) buf (omega (arith, size, length-entry de v))
          (slots_apart slot other (length (le_bytes 4 de.inode ++ de.name)) d (length-entry de v)))
    ∙ sym (dirent_at-slice buf other)

pub length-put_dirent :
    (buf : List ℕ) (slot : ℕ) (de : Dirent)
    → length buf ≡ 512
    → slot < 8
    → IsDirent de
    → length (put_dirent buf slot de) ≡ 512
unfolding put_dirent
length-put_dirent buf slot de size h v =
    length-fs_memcpy (slot * dirent_size) (le_bytes 4 de.inode ++ de.name) buf (
      omega
        (arith, length-append (le_bytes 4 de.inode) de.name, length-le_bytes 4 de.inode, v.name))
    ∙ size

-- No character of a name is NUL.
abbrev pub IsName : List ℕ → Type 0
IsName s = All (λ (c : ℕ). c ≢ 0) s

fs_strlen-length : (s : List ℕ) → IsName s → fs_strlen s ≡ length s
fs_strlen-length [] n = refl
fs_strlen-length (c ∷ s) (n, ns) =
    let z : (c == 0) ≡ false = ground arith in rw z (ap suc (fs_strlen-length s ns))

fs_strcmp-padded : (s pad : List ℕ) → IsName s → fs_strcmp (s ++ (0 ∷ pad)) s ≡ 0
fs_strcmp-padded [] pad n = refl
fs_strcmp-padded (c ∷ s) pad (n, ns) =
    let go : (not (c == 0) && (c == c)) ≡ true = ground arith in rw go (fs_strcmp-padded s pad ns)

padding : (n k : ℕ) → n < k → (rest : List ℕ) × (drop n (replicate {A = ℕ} k 0) ≡ 0 ∷ rest)
padding zero zero h = absurd (omega arith)
padding zero (suc k) h = (replicate k 0, refl)
padding (suc n) zero h = absurd (omega arith)
padding (suc n) (suc k) h = padding n k (omega arith)

abbrev kept_length : ℕ → ℕ
kept_length n = if ltb name_max n then name_max else n

kept_whole :
    (name : List ℕ) (n : ℕ) → n ≡ length name → length name ≤ 55 → take (kept_length n) name ≡ name
kept_whole name n e h =
    let k : kept_length n ≡ length name = ground arith in
    ap (λ t. take t name) k ∙ take_all (length name) name refl

set_name :
    (name : List ℕ) (n : ℕ) (rest : List ℕ)
    → n ≡ length name
    → length name ≤ 55
    → drop (length name) (fs_memset 0 56) ≡ 0 ∷ rest
    → fs_memcpy 0 (take (kept_length n) name) (fs_memset 0 56) ≡ name ++ (0 ∷ rest)
unfolding fs_memcpy
set_name name n rest e h z =
    ap (λ t. t ++ drop (0 + length t) (fs_memset 0 56)) (kept_whole name n e h)
    ∙ ap (λ t. name ++ t)
        (ap (λ t. drop t (fs_memset 0 56))
            (let k : 0 + length name ≡ length name = omega arith in k)
          ∙ z)

set_length :
    (name : List ℕ) (n : ℕ)
    → n ≡ length name
    → length name ≤ 55
    → length (fs_memcpy 0 (take (kept_length n) name) (fs_memset 0 56)) ≡ 56
set_length name n e h =
    length-fs_memcpy 0 (take (kept_length n) name) (fs_memset 0 56)
      (omega (arith, ap length (kept_whole name n e h)))

-- A name of at most 55 characters that was set compares equal.
pub fs_strcmp-dirent_set_name :
    (de : Dirent) (name : List ℕ)
    → IsName name
    → length name ≤ 55
    → (fs_strcmp (dirent_set_name de name).name name ≡ 0)
      × (length (dirent_set_name de name).name ≡ 56)
unfolding dirent_set_name
fs_strcmp-dirent_set_name de name n h =
    let (rest, e) = padding (length name) 56 (omega arith) in
    let stored = set_name name (fs_strlen name) rest (fs_strlen-length name n) h e in
    (
      ap (λ t. fs_strcmp t name) stored ∙ fs_strcmp-padded name rest n,
      set_length name (fs_strlen name) (fs_strlen-length name n) h,
    )
