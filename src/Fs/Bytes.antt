-- ===== src/Fs/Bytes.antt =====
-- The bytes of a block: little-endian words, and what fs_memcpy, fs_memset and the string helpers of
-- fs/aresfs.c do. A buffer is the list of its bytes.
pub mod Copy
pub mod Words
use ares_os.Prelude.{
  ℕ, zero, suc, ◌+◌, ◌-◌, ◌*◌, ◌/◌, ◌%◌, ◌^◌, Bool, not, ◌&&◌, List, [], ◌∷◌, ◌++◌, length, get_or,
  take, drop, replicate, ◌==◌, if◌then◌else◌,
}

-- The `n` bytes of a word, lowest first.
abbrev pub le_bytes : ℕ → ℕ → List ℕ
le_bytes zero v = []
le_bytes (suc n) v = v % 256 ∷ le_bytes n (v / 256)

-- The word in the first `n` bytes.
abbrev pub le_value : ℕ → List ℕ → ℕ
le_value zero bs = 0
le_value (suc n) bs = get_or bs 0 0 + 256 * le_value n (drop 1 bs)

-- The `n`-byte word at an offset.
abbrev pub le_at : ℕ → ℕ → List ℕ → ℕ
le_at n off bs = le_value n (drop off bs)

-- Arrays of `uint32_t`.
abbrev pub words_bytes : List ℕ → List ℕ
words_bytes [] = []
words_bytes (w ∷ ws) = le_bytes 4 w ++ words_bytes ws

abbrev pub words_value : ℕ → List ℕ → List ℕ
words_value zero bs = []
words_value (suc n) bs = le_value 4 bs ∷ words_value n (drop 4 bs)

-- `fs_memset(dst, val, n)` of a whole buffer of `n` bytes.
abbrev pub fs_memset : ℕ → ℕ → List ℕ
fs_memset val n = replicate n val

-- `fs_memcpy(&dst[off], src, n)` with `n` the length of `src`.
unfoldable pub fs_memcpy : ℕ → List ℕ → List ℕ → List ℕ
fs_memcpy off src dst = take off dst ++ (src ++ drop (off + length src) dst)

-- `fs_memcpy(dst, &src[off], n)`.
abbrev pub slice : ℕ → ℕ → List ℕ → List ℕ
slice off n src = take n (drop off src)

-- A character string ends at its first NUL, or where the buffer ends.
abbrev pub fs_strlen : List ℕ → ℕ
fs_strlen [] = 0
fs_strlen (c ∷ s) = let rest = fs_strlen s in if c == 0 then 0 else suc rest

-- The difference of the first two characters that differ, as an `int`.
abbrev pub fs_strcmp : List ℕ → List ℕ → ℕ
fs_strcmp [] [] = 0
fs_strcmp [] (b ∷ bs) = (2 ^ 32 - b) % 2 ^ 32
fs_strcmp (a ∷ xs) [] = a
fs_strcmp (a ∷ xs) (b ∷ bs) =
    let rest = fs_strcmp xs bs in
    if not (a == 0) && (a == b) then rest else (a + 2 ^ 32 - b) % 2 ^ 32
