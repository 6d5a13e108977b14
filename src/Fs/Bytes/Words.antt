-- ===== src/Fs/Bytes/Words.antt =====
-- Words and arrays of words read back from the bytes that store them.
use native.Mathlib.Nat.{pow-succ'}
use ares_os.Prelude.{
  ℕ, zero, suc, ◌*◌, ◌/◌, ◌^◌, ◌<◌, ◌≡◌, refl, ap, ap₂, List, [], ◌∷◌, ◌++◌, length, All,
  length-append, arith,
}
use ares_os.Fs.Bytes.{le_bytes, le_value, words_bytes, words_value}

pub length-le_bytes : (n v : ℕ) → length (le_bytes n v) ≡ n
length-le_bytes zero v = refl
length-le_bytes (suc n) v = ap suc (length-le_bytes n (v / 256))

-- A word that fits its bytes is read back.
pub le_value-le_bytes :
    (n v : ℕ) (rest : List ℕ) → v < 256 ^ n → le_value n (le_bytes n v ++ rest) ≡ v
le_value-le_bytes zero v rest h = omega arith
le_value-le_bytes (suc n) v rest h =
    let part : v / 256 < 256 ^ n = omega (arith, pow-succ' 256 n) in
    omega (arith, le_value-le_bytes n (v / 256) rest part)

pub length-words_bytes : (ws : List ℕ) → length (words_bytes ws) ≡ 4 * length ws
length-words_bytes [] = refl
length-words_bytes (w ∷ ws) =
    omega (arith, length-append (le_bytes 4 w) (words_bytes ws), length-words_bytes ws)

-- So is an array of 32-bit words.
pub words_value-words_bytes :
    (n : ℕ) (ws rest : List ℕ)
    → length ws ≡ n
    → All (λ w. w < 256 ^ 4) ws
    → words_value n (words_bytes ws ++ rest) ≡ ws
words_value-words_bytes zero [] rest e h = refl
words_value-words_bytes zero (w ∷ ws) rest e h = absurd (omega arith)
words_value-words_bytes (suc n) [] rest e h = absurd (omega arith)
words_value-words_bytes (suc n) (w ∷ ws) rest e (h, hs) =
    ap₂ ◌∷◌ (le_value-le_bytes 4 w (words_bytes ws ++ rest) h)
      (words_value-words_bytes n ws rest (omega arith) hs)
