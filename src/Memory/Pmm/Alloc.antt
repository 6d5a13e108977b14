-- ===== src/Memory/Pmm/Alloc.antt =====
-- `pmm_alloc_page`: which page it takes, and that its loops end.
use mathlib.Core.Path.{subst}
use ares_os.Prelude.{
  ℕ, zero, suc, ◌+◌, ◌-◌, ◌*◌, ◌≤◌, ◌<◌, ◌≡◌, ◌≢◌, refl, ◌∙◌, ap, true, false, arith, ◌==◌, ◌⊎◌,
  inl, inr, Bool-cases, none, some, get_or, ltb,
}
use ares_os.Prelude.Word.{bit, zero-bit}
use ares_os.Prelude.Bitmap
use ares_os.Prelude.Lowest.{IsLowestBit, first_set, first_set_lem}
use ares_os.Prelude.Count.{count_none}
use ares_os.Memory.Pmm.{
  Pmm, bitmap_is_free, bitmap_set_used, take_page, scan_words, pmm_alloc_page, dec64,
}
use ares_os.Memory.Pmm.Inv.{IsShaped, IsValid, set_used-IsShaped, count-set_used, free-le-total}

-- `p` is the lowest free page.
pub record IsLowest (m : Pmm) (p : ℕ) : Type 0 where
  pub inside : p < m.total
  pub is_free : bitmap_is_free m p ≡ true
  pub lower : (i : ℕ) → i < p → bitmap_is_free m i ≡ false

abbrev NoneBelow : Pmm → ℕ → Type 0
NoneBelow m k = (i : ℕ) → i < k → bitmap_is_free m i ≡ false

module _ (m : Pmm) (shape : IsShaped m) where
  -- a word of zeros holds no free page
  skip_word : (w : ℕ) → NoneBelow m (w * 64) → get_or m.bitmap w 0 ≡ 0 → NoneBelow m ((w + 1) * 64)
  skip_word w below e i h = elim (Bool-cases (ltb i (w * 64))) [
    | inl old ↦ below i (ground arith)
    | inr new ↦
        let place : i ≡ i - w * 64 + 64 * w = ground arith in
        let inside : i - w * 64 < 64 = ground arith in
        ap (bitmap_is_free m) place
        ∙ Bitmap.test_at 64 (omega arith) m.bitmap w (i - w * 64) inside
        ∙ ap (λ t. bit t (i - w * 64)) e
        ∙ zero-bit (i - w * 64)
  ]

  found_page :
      (w b : ℕ)
      → NoneBelow m (w * 64)
      → b < 64
      → IsLowestBit (get_or m.bitmap w 0) b
      → IsLowest m (w * 64 + b)
  found_page w b below s l =
      let at : (j : ℕ) → j < 64 → bitmap_is_free m (w * 64 + j) ≡ bit (get_or m.bitmap w 0) j =
        λ j h.
          ap (bitmap_is_free m) (let e : w * 64 + j ≡ j + 64 * w = omega arith in e)
          ∙ Bitmap.test_at 64 (omega arith) m.bitmap w j h in
      let hit : bitmap_is_free m (w * 64 + b) ≡ true = at b s ∙ l.is_set in
      record {
        inside = elim (Bool-cases (ltb (w * 64 + b) m.total)) [
          | inl h ↦ ground arith
          | inr h ↦ absurd (ground (arith, shape.outside (w * 64 + b)))
        ];
        is_free = hit;
        lower = λ i h. elim (Bool-cases (ltb i (w * 64))) [
          | inl old ↦ below i (ground arith)
          | inr new ↦
              let place : i ≡ w * 64 + (i - w * 64) = ground arith in
              let small : i - w * 64 < b = ground arith in
              ap (bitmap_is_free m) place
              ∙ at (i - w * 64) (omega arith)
              ∙ l.lower (i - w * 64) small
        ];
      }

  -- The scan ends at the lowest free page, or finds that there is none.
  scan_words_lem :
      (n w : ℕ)
      → w + n ≡ 256
      → NoneBelow m (w * 64)
      → (NoneBelow m (256 * 64) × (scan_words n w m ≡ some (none, m)))
        ⊎ ((p : ℕ) × IsLowest m p × (scan_words n w m ≡ some (take_page p m)))
  unfolding scan_words
  scan_words_lem zero w e below =
      let e' : w * 64 ≡ 256 * 64 = omega arith in inl (subst (NoneBelow m) e' below, refl)
  scan_words_lem (suc n) w e below = elim (Bool-cases (get_or m.bitmap w 0 == 0)) [
    | inl z ↦ rw z (scan_words_lem n (w + 1) (omega arith) (skip_word w below (ground arith)))
    | inr nz ↦
        let ne : get_or m.bitmap w 0 ≢ 0 = ground arith in
        let (b, r, l, s) = first_set_lem 64 (get_or m.bitmap w 0) 0 ne (shape.words w) in
        let r' : first_set 64 (get_or m.bitmap w 0) 0 ≡ some b = r ∙ ap some (omega arith) in
        inr (w * 64 + b, found_page w b below s l, rw (nz, r'))
  ]

-- The state after page `p` was taken.
abbrev pub taken : Pmm → ℕ → Pmm
taken m p = record (bitmap_set_used m p) { free = m.free - 1 }

pub taken-IsValid :
    (m : Pmm) (p : ℕ)
    → IsValid m
    → IsLowest m p
    → IsValid (taken m p) × (take_page p m ≡ (some (p * 4096), taken m p)) × (0 < m.free)
unfolding take_page
taken-IsValid m p v l =
    let shape = set_used-IsShaped m p v.shape l.inside in
    let c = count-set_used m p v.shape l.inside l.is_free in
    let pos : 0 < m.free = omega (arith, v.counted) in
    let small : m.free ≤ 16384 = omega (arith, free-le-total m v, v.shape.limit) in
    let dec : dec64 m.free ≡ m.free - 1 = omega arith in
    (
      record {
        shape = record {
          size = shape.size;
          words = shape.words;
          limit = shape.limit;
          outside = shape.outside;
        };
        counted = omega (arith, v.counted);
      },
      ground (arith, l.inside, dec),
      pos,
    )

abbrev Outcome : Pmm → Type 0
Outcome m =
    ((m.free ≡ 0) × (pmm_alloc_page m ≡ some (none, m)))
    ⊎ ((p : ℕ) × IsLowest m p
        × (pmm_alloc_page m ≡ some (some (p * 4096), taken m p))
        × IsValid (taken m p)
        × (0 < m.free))

pub pmm_alloc_page-cases : (m : Pmm) → IsValid m → Outcome m
unfolding pmm_alloc_page
pmm_alloc_page-cases m v = elim (scan_words_lem m v.shape 256 0 refl (λ i h. elim h [ ])) [
  | inl (below, e) ↦ inl (
    v.counted
        ∙ count_none (bitmap_is_free m) m.total (λ j h. below j (omega (arith, v.shape.limit))),
    e,
  )
  | inr (p, l, e) ↦ let (v', t, pos) = taken-IsValid m p v l in inr (p, l, e ∙ ap some t, v', pos)
]

-- On a valid state with a free page, `pmm_alloc_page` ends, returns the address of the lowest free
-- page, marks just that page used, takes one from the counter, and leaves a valid state.
pub pmm_alloc_page-IsLowest :
    (m : Pmm)
    → IsValid m
    → 0 < m.free
    → (p : ℕ) × IsLowest m p
      × (pmm_alloc_page m ≡ some (some (p * 4096), taken m p))
      × IsValid (taken m p)
pmm_alloc_page-IsLowest m v h = elim (pmm_alloc_page-cases m v) [
  | inl (z, e) ↦ absurd (omega arith)
  | inr (p, l, e, v', pos) ↦ (p, l, e, v')
]

-- On a valid state with no free page, `pmm_alloc_page` ends, returns NULL and changes nothing.
pub pmm_alloc_page_full : (m : Pmm) → IsValid m → m.free ≡ 0 → pmm_alloc_page m ≡ some (none, m)
pmm_alloc_page_full m v h = elim (pmm_alloc_page-cases m v) [
  | inl (z, e) ↦ e
  | inr (p, l, e, v', pos) ↦ absurd (omega arith)
]
