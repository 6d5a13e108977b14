-- ===== src/Fs/Names/Components.antt =====
-- The components of a path, as the pieces between its slashes that are not empty, and how the
-- scanners of fs/aresfs.c walk over them.
use ares_os.Prelude.{
  ℕ, suc, ◌+◌, ◌≤◌, ◌≡◌, refl, ap, ◌∙◌, true, false, none, some, List, [], ◌∷◌, length, ◌==◌, leb,
  if◌then◌else◌, Bool-cases, inl, inr, arith,
}
use ares_os.Fs.Layout.{name_max}
use ares_os.Fs.Names.{slash, skip_slashes, consed, scan_name, at_slash}

-- The pieces between the slashes, empty ones included.
abbrev put_front : ℕ → List (List ℕ) → List (List ℕ)
put_front c [] = []
put_front c (w ∷ ws) = (c ∷ w) ∷ ws

unfoldable pub pieces : List ℕ → List (List ℕ)
pieces [] = [] ∷ []
pieces (c ∷ p) = let rest = pieces p in if c == slash then [] ∷ rest else put_front c rest

abbrev pub nonempty : List (List ℕ) → List (List ℕ)
nonempty [] = []
nonempty ([] ∷ ws) = nonempty ws
nonempty ((c ∷ w) ∷ ws) = (c ∷ w) ∷ nonempty ws

abbrev pub components : List ℕ → List (List ℕ)
components p = nonempty (pieces p)

-- The piece at the front, and what follows it.
abbrev pub word : List ℕ → List ℕ
word [] = []
word (c ∷ p) = let rest = word p in if c == slash then [] else c ∷ rest

abbrev pub after : List ℕ → List ℕ
after [] = []
after (c ∷ p) = let rest = after p in if c == slash then c ∷ p else rest

consed-if :
    (i c : ℕ) (p : List ℕ)
    → consed c (if leb (i + 1 + length (word p)) name_max then some (word p, after p) else none)
      ≡ (if leb (i + suc (length (word p))) name_max then some (c ∷ word p, after p) else none)
consed-if i c p =
    let k : i + 1 + length (word p) ≡ i + suc (length (word p)) = omega arith in
    elim (Bool-cases (leb (i + suc (length (word p))) name_max)) [
      | inl fits ↦ rw (k, fits)
      | inr over ↦ rw (k, over)
    ]

-- The scan of a name takes the word at the front, unless it is too long for a name.
pub scan_name-word :
    (i : ℕ) (p : List ℕ)
    → i ≤ name_max
    → scan_name i p ≡ (if leb (i + length (word p)) name_max then some (word p, after p) else none)
unfolding scan_name
scan_name-word i [] h = ground arith
scan_name-word i (c ∷ p) h = elim (Bool-cases (c == slash)) [
  | inl s ↦ let fits : leb (i + 0) name_max ≡ true = ground arith in rw (s, fits)
  | inr n ↦ elim (Bool-cases (leb name_max i)) [
    | inl l ↦
        let over : leb (i + suc (length (word p))) name_max ≡ false = ground arith in
        rw (n, l, over)
    | inr l ↦ rw (n, l) (ap (consed c) (scan_name-word (i + 1) p (ground arith)) ∙ consed-if i c p)
  ]
]

abbrev later_pieces : List ℕ → List (List ℕ)
later_pieces [] = []
later_pieces (c ∷ p) = pieces p

pieces-word : (p : List ℕ) → pieces p ≡ word p ∷ later_pieces (after p)
unfolding pieces
pieces-word [] = refl
pieces-word (c ∷ p) = elim (Bool-cases (c == slash)) [
  | inl s ↦ rw s
  | inr n ↦ rw n (rw (pieces-word p))
]

-- What is left begins with a slash or is empty.
later_pieces-after : (p : List ℕ) → nonempty (later_pieces (after p)) ≡ components (after p)
unfolding pieces
later_pieces-after [] = refl
later_pieces-after (c ∷ p) = elim (Bool-cases (c == slash)) [
  | inl s ↦ rw (s, s)
  | inr n ↦ rw n (later_pieces-after p)
]

pub components-skip_slashes : (p : List ℕ) → components (skip_slashes p) ≡ components p
unfolding skip_slashes pieces
components-skip_slashes [] = refl
components-skip_slashes (c ∷ p) = elim (Bool-cases (c == slash)) [
  | inl s ↦ rw s (components-skip_slashes p)
  | inr n ↦ rw (n, n)
]

-- A path that does not begin with a slash is its first word and the rest.
pub components-word :
    (c : ℕ) (p : List ℕ)
    → (c == slash) ≡ false
    → components (c ∷ p) ≡ word (c ∷ p) ∷ components (after (c ∷ p))
components-word c p n =
    ap nonempty (pieces-word (c ∷ p)) ∙ rw n (ap (λ t. (c ∷ word p) ∷ t) (later_pieces-after p))

pub length-skip_slashes : (p : List ℕ) → length (skip_slashes p) ≤ length p
unfolding skip_slashes
length-skip_slashes [] = omega arith
length-skip_slashes (c ∷ p) = ground (arith, length-skip_slashes p)

pub length-after : (p : List ℕ) → length (after p) ≤ length p
length-after [] = omega arith
length-after (c ∷ p) = ground (arith, length-after p)

pub at_slash-skip_slashes : (p : List ℕ) → at_slash (skip_slashes p) ≡ false
unfolding skip_slashes
at_slash-skip_slashes [] = refl
at_slash-skip_slashes (c ∷ p) = elim (Bool-cases (c == slash)) [
  | inl s ↦ rw s (at_slash-skip_slashes p)
  | inr n ↦ rw (n, n)
]
