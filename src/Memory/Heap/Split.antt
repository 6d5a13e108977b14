-- ===== src/Memory/Heap/Split.antt =====
-- The split of a block: what take_block does to a chain of headers.
use mathlib.Core.Path.{subst}
use ares_os.Prelude.{
  ℕ, ◌+◌, ◌-◌, ◌≤◌, ◌<◌, ◌≡◌, refl, sym, ap, ◌∙◌, true, false, not, ◌||◌, List, [], ◌∷◌, ltb,
  if◌then◌else◌, Bool-cases, inl, inr, arith,
}
use ares_os.Memory.Heap.{heap_magic, header_size, heap_align, HeapBlock, Headers, put, take_block}
use ares_os.Memory.Heap.Cells.{Cell, total, header, follow, Chain, Chain-frame, put_self, put_ne}

-- The cell that serves a request, and the one that is left over.
abbrev pub take_cell : ℕ → Cell → List Cell → List Cell
take_cell want c cs =
    if ltb (header_size + heap_align) (c.size - want)
    then record { size = want; free = false }
      ∷ record { size = c.size - want - header_size; free = true }
      ∷ cs
    else record { size = c.size; free = false } ∷ cs

-- In use, or too small.
abbrev pub Unfit : ℕ → Cell → Type 0
Unfit want c = (not c.free || ltb c.size want) ≡ true

pub total-take_cell :
    (want : ℕ) (c : Cell) (cs : List Cell)
    → want ≤ c.size
    → total (take_cell want c cs) ≡ total (c ∷ cs)
total-take_cell want c cs h = elim (Bool-cases (ltb (header_size + heap_align) (c.size - want))) [
  | inl split ↦ rw split (ground arith)
  | inr whole ↦ rw whole refl
]

pub follow_same :
    (a b : ℕ) (c d : Cell) (cs : List Cell)
    → a + header_size + c.size ≡ b + header_size + d.size
    → follow a c cs ≡ follow b d cs
follow_same a b c d [] e = refl
follow_same a b c d (_ ∷ cs) e = e

-- the chain after a cell whose header, and one inside its payload, were written
pub rest_kept :
    (h h' : Headers) (b : ℕ) (c : Cell) (post : List Cell)
    → ((x : ℕ) → b + header_size + c.size ≤ x → h' x ≡ h x)
    → Chain h (follow b c post) post
    → Chain h' (follow b c post) post
rest_kept h h' b c [] f p = p
rest_kept h h' b c (d ∷ ds) f p =
    Chain-frame h h' (b + header_size + c.size) (b + header_size + c.size) (d ∷ ds) f (omega arith)
      p

-- the two outcomes of take_block at a block whose header is known
abbrev whole_block : (b : ℕ) → Cell → (next : ℕ) → Headers → Headers
whole_block b c next h = put h b (header (record { size = c.size; free = false }) next)

abbrev split_block : (want b : ℕ) → Cell → (next : ℕ) → Headers → Headers
split_block want b c next h =
    put
      (put h (b + header_size + want)
        (header (record { size = c.size - want - header_size; free = true }) next))
      b (header (record { size = want; free = false }) (b + header_size + want))

pub take_block-header :
    (h : Headers) (b want : ℕ) (c : Cell) (next : ℕ)
    → h b ≡ header c next
    → take_block want b h ≡ (
        if ltb (header_size + heap_align) (c.size - want)
        then split_block want b c next h
        else whole_block b c next h)
unfolding take_block
take_block-header h b want c next e = ap (written h b want) e
  where
    written : Headers → (b want : ℕ) → HeapBlock → Headers
    written h b want x =
        if ltb (header_size + heap_align) (x.size - want)
        then put
            (put h (b + header_size + want) (record {
              size = x.size - want - header_size;
              magic = heap_magic;
              next = x.next;
              free = true;
            }))
            b (record x { size = want; next = b + header_size + want; free = false })
        else put h b (record x { free = false })

whole_block-Taken :
    (h : Headers) (b want : ℕ) (c : Cell) (post : List Cell)
    → Chain h b (c ∷ post)
    → Chain (whole_block b c (follow b c post) h) b (record { size = c.size; free = false } ∷ post)
      × ((x : ℕ) → x < b → whole_block b c (follow b c post) h x ≡ h x)
whole_block-Taken h b want c post (n, (e, p)) =
    let taken : Cell = record { size = c.size; free = false } in
    let h' : Headers = whole_block b c (follow b c post) h in
    let same : follow b c post ≡ follow b taken post = follow_same b b c taken post refl in
    (
      (
        n,
        (
          put_self h b _ ∙ ap (header taken) same,
          subst (λ t. Chain h' t post) same
              (rest_kept h h' b c post (λ x l. put_ne h b _ x (omega arith)) p),
        ),
      ),
      λ x l. put_ne h b _ x (omega arith),
    )

split_block-Taken :
    (h : Headers) (b want : ℕ) (c : Cell) (post : List Cell)
    → header_size + heap_align < c.size - want
    → Chain h b (c ∷ post)
    → Chain (split_block want b c (follow b c post) h) b (
        record { size = want; free = false }
        ∷ record { size = c.size - want - header_size; free = true }
        ∷ post)
      × ((x : ℕ) → x < b → split_block want b c (follow b c post) h x ≡ h x)
split_block-Taken h b want c post l (n, (e, p)) =
    let tail : ℕ = b + header_size + want in
    let inner : Headers =
      put h tail
        (header (record { size = c.size - want - header_size; free = true }) (follow b c post)) in
    let left : Cell = record { size = c.size - want - header_size; free = true } in
    let h' : Headers = split_block want b c (follow b c post) h in
    let same : follow b c post ≡ follow tail left post =
      follow_same b tail c left post (omega arith) in
    (
      (
        n,
        (
          put_self inner b _,
          (
            omega arith,
            (
              put_ne inner b _ tail (omega arith) ∙ put_self h tail _ ∙ ap (header left) same,
              subst (λ t. Chain h' t post) same
                  (rest_kept h h' b c post
                    (λ x k. put_ne inner b _ x (omega arith) ∙ put_ne h tail _ x (omega arith)) p),
            ),
          ),
        ),
      ),
      λ x k. put_ne inner b _ x (omega arith) ∙ put_ne h tail _ x (omega arith),
    )

pub take_block-take_cell :
    (h : Headers) (b want : ℕ) (c : Cell) (post : List Cell)
    → want ≤ c.size
    → Chain h b (c ∷ post)
    → Chain (take_block want b h) b (take_cell want c post)
      × ((x : ℕ) → x < b → take_block want b h x ≡ h x)
take_block-take_cell h b want c post l p =
    let step = take_block-header h b want c (follow b c post) p.1.0 in
    elim (Bool-cases (ltb (header_size + heap_align) (c.size - want))) [
      | inl split ↦
          let r = split_block-Taken h b want c post (ground arith) p in
          let e : take_block want b h ≡ split_block want b c (follow b c post) h =
            step ∙ rw split refl in
          rw split (
            subst
                (λ t. Chain t b (
                  record { size = want; free = false }
                  ∷ record { size = c.size - want - header_size; free = true }
                  ∷ post))
                (sym e) r.0,
            λ x k. ap (λ t. t x) e ∙ r.1 x k,
          )
      | inr whole ↦
          let r = whole_block-Taken h b want c post p in
          let e : take_block want b h ≡ whole_block b c (follow b c post) h =
            step ∙ rw whole refl in
          rw whole (
            subst (λ t. Chain t b (record { size = c.size; free = false } ∷ post)) (sym e) r.0,
            λ x k. ap (λ t. t x) e ∙ r.1 x k,
          )
    ]
