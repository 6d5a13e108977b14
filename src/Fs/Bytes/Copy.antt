-- ===== src/Fs/Bytes/Copy.antt =====
-- Copies into a buffer and out of it, `fs_memcpy` and `slice`.
use ares_os.Prelude.{
  ℕ, zero, suc, ◌+◌, ◌≤◌, ◌≡◌, ◌⊎◌, inl, inr, refl, ap, ◌∙◌, List, [], ◌∷◌, ◌++◌, length, take,
  drop, length-append, length-take, length-drop, arith,
}
use ares_os.Fs.Bytes.{fs_memcpy, slice}

module _ {A : Type 0} where
  pub take-append : (n : ℕ) (xs ys : List A) → length xs ≡ n → take n (xs ++ ys) ≡ xs
  take-append zero [] ys e = refl
  take-append zero (x ∷ xs) ys e = absurd (omega arith)
  take-append (suc n) [] ys e = absurd (omega arith)
  take-append (suc n) (x ∷ xs) ys e = ap (λ t. x ∷ t) (take-append n xs ys (omega arith))

  pub drop-append : (n : ℕ) (xs ys : List A) → length xs ≡ n → drop n (xs ++ ys) ≡ ys
  drop-append zero [] ys e = refl
  drop-append zero (x ∷ xs) ys e = absurd (omega arith)
  drop-append (suc n) [] ys e = absurd (omega arith)
  drop-append (suc n) (x ∷ xs) ys e = drop-append n xs ys (omega arith)

  pub drop-append_more :
      (m n k : ℕ) (xs ys : List A) → k + length xs ≡ n → k ≡ m → drop n (xs ++ ys) ≡ drop m ys
  drop-append_more m n k [] ys e h = let e' : n ≡ m = omega arith in ap (λ t. drop t ys) e'
  drop-append_more m zero k (x ∷ xs) ys e h = absurd (omega arith)
  drop-append_more m (suc n) k (x ∷ xs) ys e h = drop-append_more m n k xs ys (omega arith) h

  pub take_all : (n : ℕ) (xs : List A) → length xs ≡ n → take n xs ≡ xs
  take_all zero [] e = refl
  take_all zero (x ∷ xs) e = absurd (omega arith)
  take_all (suc n) [] e = absurd (omega arith)
  take_all (suc n) (x ∷ xs) e = ap (λ t. x ∷ t) (take_all n xs (omega arith))

  drop_past :
      (xs ds : List A) (off : ℕ)
      → length xs ≤ off
      → length xs ≤ length ds
      → drop off (xs ++ drop (length xs) ds) ≡ drop off ds
  drop_past [] ds off h l = refl
  drop_past (x ∷ xs) [] off h l = absurd (omega arith)
  drop_past (x ∷ xs) (d ∷ ds) zero h l = absurd (omega arith)
  drop_past (x ∷ xs) (d ∷ ds) (suc off) h l = drop_past xs ds off (omega arith) (omega arith)

  take_before :
      (n off : ℕ) (ds ys : List A)
      → n ≤ off
      → off ≤ length ds
      → take n (take off ds ++ ys) ≡ take n ds
  take_before zero off ds ys h l = refl
  take_before (suc n) zero ds ys h l = absurd (omega arith)
  take_before (suc n) (suc off) [] ys h l = absurd (omega arith)
  take_before (suc n) (suc off) (d ∷ ds) ys h l =
      ap (λ t. d ∷ t) (take_before n off ds ys (omega arith) (omega arith))

  slice_before :
      (n at off : ℕ) (ds ys : List A)
      → at + n ≤ off
      → off ≤ length ds
      → take n (drop at (take off ds ++ ys)) ≡ take n (drop at ds)
  slice_before n zero off ds ys h l = take_before n off ds ys (omega arith) l
  slice_before n (suc at) zero ds ys h l = absurd (omega arith)
  slice_before n (suc at) (suc off) [] ys h l = absurd (omega arith)
  slice_before n (suc at) (suc off) (d ∷ ds) ys h l =
      slice_before n at off ds ys (omega arith) (omega arith)

  slice_after :
      (at off end : ℕ) (src ds : List A)
      → off + length src ≡ end
      → end ≤ at
      → end ≤ length ds
      → drop at (take off ds ++ (src ++ drop end ds)) ≡ drop at ds
  slice_after at zero end src ds e h l =
      let e' : length src ≡ end = omega arith in
      rw (← e') (drop_past src ds at (omega arith) (omega arith))
  slice_after at (suc off) zero src ds e h l = absurd (omega arith)
  slice_after zero (suc off) (suc end) src ds e h l = absurd (omega arith)
  slice_after (suc at) (suc off) (suc end) src [] e h l = absurd (omega arith)
  slice_after (suc at) (suc off) (suc end) src (d ∷ ds) e h l =
      slice_after at off end src ds (omega arith) (omega arith) (omega arith)

  drop-take_append :
      (off : ℕ) (ds ys : List A) → off ≤ length ds → drop off (take off ds ++ ys) ≡ ys
  drop-take_append zero ds ys l = refl
  drop-take_append (suc off) [] ys l = absurd (omega arith)
  drop-take_append (suc off) (d ∷ ds) ys l = drop-take_append off ds ys (omega arith)

-- A copy that fits keeps the size of the buffer.
pub length-fs_memcpy :
    (off : ℕ) (src dst : List ℕ)
    → off + length src ≤ length dst
    → length (fs_memcpy off src dst) ≡ length dst
unfolding fs_memcpy
length-fs_memcpy off src dst h = omega (
  arith,
  length-append (take off dst) (src ++ drop (off + length src) dst),
  length-append src (drop (off + length src) dst),
  length-take off dst,
  length-drop (off + length src) dst,
)

-- What was copied in is read back.
pub slice-fs_memcpy :
    (off n : ℕ) (src dst : List ℕ)
    → length src ≡ n
    → off ≤ length dst
    → slice off n (fs_memcpy off src dst) ≡ src
unfolding fs_memcpy
slice-fs_memcpy off n src dst e l =
    ap (take n) (drop-take_append off dst (src ++ drop (off + length src) dst) l)
    ∙ take-append n src (drop (off + length src) dst) e

-- A part of the buffer that the copy does not touch stays.
pub slice-fs_memcpy_apart :
    (at n off : ℕ) (src dst : List ℕ)
    → off + length src ≤ length dst
    → (at + n ≤ off) ⊎ (off + length src ≤ at)
    → slice at n (fs_memcpy off src dst) ≡ slice at n dst
unfolding fs_memcpy
slice-fs_memcpy_apart at n off src dst l (inl before) =
    slice_before n at off dst (src ++ drop (off + length src) dst) before (omega arith)
slice-fs_memcpy_apart at n off src dst l (inr after) =
    ap (take n) (slice_after at off (off + length src) src dst refl after l)
