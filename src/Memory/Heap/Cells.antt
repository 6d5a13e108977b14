-- ===== src/Memory/Heap/Cells.antt =====
-- The heap as a list of cells that lie one after the other, and how a chain of headers holds it.
use mathlib.Core.Path.{subst}
use ares_os.Prelude.{
  ℕ, ◌+◌, ◌-◌, ◌*◌, ◌≤◌, ◌<◌, ◌≡◌, ◌≢◌, refl, ◌∙◌, Bool, true, List, [], ◌∷◌, ◌++◌, length, arith,
}
use ares_os.Memory.Pmm.{kernel_heap_start, kernel_heap_initial_size}
use ares_os.Memory.Heap.{heap_magic, header_size, HeapBlock, Headers, Heap, put, heap_init}

pub record Cell : Type 0 where
  pub size : ℕ
  pub free : Bool

-- Headers and payloads together.
abbrev pub total : List Cell → ℕ
total [] = 0
total (c ∷ cs) = header_size + c.size + total cs

abbrev pub header : Cell → ℕ → HeapBlock
header c next = record { size = c.size; magic = heap_magic; next = next; free = c.free }

-- Where the cell after the one at `a` lies.
abbrev pub follow : ℕ → Cell → List Cell → ℕ
follow a c [] = 0
follow a c (d ∷ cs) = a + header_size + c.size

abbrev pub Chain : Headers → ℕ → List Cell → Type 0
Chain h a [] = a ≡ 0
Chain h a (c ∷ cs) = (a ≢ 0) × ((h a ≡ header c (follow a c cs)) × Chain h (follow a c cs) cs)

-- The headers from the head on tile the window of the heap.
pub record IsHeap (s : Heap) (cs : List Cell) : Type 0 where
  pub head : s.heap_head ≡ kernel_heap_start
  pub chain : Chain s.at kernel_heap_start cs
  pub tiles : total cs ≡ kernel_heap_initial_size

pub Chain-frame :
    (h h' : Headers) (lo a : ℕ) (cs : List Cell)
    → ((x : ℕ) → lo ≤ x → h' x ≡ h x)
    → lo ≤ a
    → Chain h a cs
    → Chain h' a cs
Chain-frame h h' lo a [] f l p = p
Chain-frame h h' lo a (c ∷ []) f l (n, (e, p)) = (n, (f a l ∙ e, p))
Chain-frame h h' lo a (c ∷ d ∷ cs) f l (n, (e, p)) =
    (n, (f a l ∙ e, Chain-frame h h' lo (a + header_size + c.size) (d ∷ cs) f (omega arith) p))

-- The chain from a cell of the list on.
pub Chain-suffix :
    (h : Headers) (a b : ℕ) (pre : List Cell) (c : Cell) (post : List Cell)
    → a + total pre ≡ b
    → Chain h a (pre ++ (c ∷ post))
    → Chain h b (c ∷ post)
Chain-suffix h a b [] c post e p =
    subst (λ t. Chain h t (c ∷ post)) (let e' : a ≡ b = omega arith in e') p
Chain-suffix h a b (d ∷ []) c post e (n, (f, p)) =
    Chain-suffix h (a + header_size + d.size) b [] c post (omega arith) p
Chain-suffix h a b (d ∷ d' ∷ pre) c post e (n, (f, p)) =
    Chain-suffix h (a + header_size + d.size) b (d' ∷ pre) c post (omega arith) p

-- The chain after its end from some cell on is replaced.
pub Chain-replace :
    (h h' : Headers) (a b : ℕ) (pre : List Cell) (c : Cell) (post : List Cell) (d : Cell)
    (ds : List Cell)
    → a + total pre ≡ b
    → Chain h a (pre ++ (c ∷ post))
    → ((x : ℕ) → x < b → h' x ≡ h x)
    → Chain h' b (d ∷ ds)
    → Chain h' a (pre ++ (d ∷ ds))
Chain-replace h h' a b [] c post d ds e p f q =
    subst (λ t. Chain h' t (d ∷ ds)) (let e' : b ≡ a = omega arith in e') q
Chain-replace h h' a b (k ∷ []) c post d ds e (n, (g, p)) f q = (
  n,
  (
    f a (omega arith) ∙ g,
    Chain-replace h h' (a + header_size + k.size) b [] c post d ds (omega arith) p f q,
  ),
)
Chain-replace h h' a b (k ∷ k' ∷ pre) c post d ds e (n, (g, p)) f q = (
  n,
  (
    f a (omega arith) ∙ g,
    Chain-replace h h' (a + header_size + k.size) b (k' ∷ pre) c post d ds (omega arith) p f q,
  ),
)

pub length-le-total : (cs : List Cell) → length cs * 32 ≤ total cs
length-le-total [] = omega arith
length-le-total (c ∷ cs) = omega (arith, length-le-total cs)

pub total-append : (xs ys : List Cell) → total (xs ++ ys) ≡ total xs + total ys
total-append [] ys = omega arith
total-append (c ∷ xs) ys = omega (arith, total-append xs ys)

pub put_self : (h : Headers) (a : ℕ) (b : HeapBlock) → put h a b a ≡ b
put_self h a b = ground arith

pub put_ne : (h : Headers) (a : ℕ) (b : HeapBlock) (x : ℕ) → x ≢ a → put h a b x ≡ h x
put_ne h a b x d = ground arith

-- After heap_init the window is one free cell.
pub heap_init-IsHeap :
    (s : Heap)
    → IsHeap
        (heap_init s)
        (record { size = kernel_heap_initial_size - header_size; free = true } ∷ [])
unfolding heap_init
heap_init-IsHeap s = record { head = refl; chain = (omega arith, (refl, refl)); tiles = refl }
