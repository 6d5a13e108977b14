-- ===== src/Memory/Heap/Free.antt =====
-- kfree marks its cell and joins it with the free cells that follow.
use mathlib.Core.Path.{subst}
use ares_os.Prelude.{
  ℕ, zero, suc, ◌+◌, ◌%◌, ◌^◌, ◌<◌, ◌≡◌, ◌≢◌, refl, sym, ap, ap₂, ◌∙◌, Bool, true, false, not, some,
  List, [], ◌∷◌, ◌++◌, length, length-append, ◌==◌, if◌then◌else◌, Bool-cases, inl, inr, arith,
}
use ares_os.Memory.Pmm.{kernel_heap_start}
use ares_os.Memory.Heap.{
  heap_magic, header_size, HeapBlock, Headers, Heap, put, fuel, payload_of, block_from_payload,
  coalesce, kfree,
}
use ares_os.Memory.Heap.Cells.{
  Cell, total, header, follow, Chain, IsHeap, Chain-suffix, Chain-replace, length-le-total,
  total-append, put_self, put_ne,
}
use ares_os.Memory.Heap.Split.{follow_same, rest_kept}

abbrev free_cell : ℕ → Cell
free_cell n = record { size = n; free = true }

-- A free cell of size `n` joined with the free cells after it.
abbrev pub merge : ℕ → List Cell → List Cell
merge n [] = record { size = n; free = true } ∷ []
merge n (d ∷ ds) =
    let rest = merge (n + header_size + d.size) ds in
    if d.free then rest else record { size = n; free = true } ∷ d ∷ ds

merge-stop :
    (n : ℕ) (d : Cell) (ds : List Cell) → d.free ≡ false → merge n (d ∷ ds) ≡ free_cell n ∷ d ∷ ds
merge-stop n d ds u =
    ap (λ (t : Bool). if t then merge (n + header_size + d.size) ds else free_cell n ∷ d ∷ ds) u

merge-join :
    (n : ℕ) (d : Cell) (ds : List Cell)
    → d.free ≡ true
    → merge n (d ∷ ds) ≡ merge (n + header_size + d.size) ds
merge-join n d ds u =
    ap (λ (t : Bool). if t then merge (n + header_size + d.size) ds else free_cell n ∷ d ∷ ds) u

total-merge : (n : ℕ) (cs : List Cell) → total (merge n cs) ≡ header_size + n + total cs
total-merge n [] = refl
total-merge n (d ∷ ds) = elim (Bool-cases d.free) [
  | inl f ↦ rw f (omega (arith, total-merge (n + header_size + d.size) ds))
  | inr u ↦ rw u refl
]

-- It begins with a free cell.
merge-cons :
    (n : ℕ) (cs : List Cell) → (m : ℕ) × ((ds : List Cell) × (merge n cs ≡ free_cell m ∷ ds))
merge-cons n [] = (n, ([], refl))
merge-cons n (d ∷ ds) = elim (Bool-cases d.free) [
  | inl f ↦ let (m, (es, e)) = merge-cons (n + header_size + d.size) ds in (m, (es, rw f e))
  | inr u ↦ (n, (d ∷ ds, rw u refl))
]

-- the body of the loop of kfree
abbrev join : HeapBlock → HeapBlock → HeapBlock
join x y = record x { size = (x.size + header_size + y.size) % 2 ^ 64; next = y.next }

abbrev joined : Headers → ℕ → Headers
joined h b = put h b (join (h b) (h (h b).next))

coalesce-end : (k b : ℕ) (h : Headers) (c : Cell) → h b ≡ header c 0 → coalesce (suc k) b h ≡ some h
unfolding coalesce
coalesce-end k b h c e =
    let last : ((h b).next == 0) ≡ true = ap (λ (x : HeapBlock). x.next == 0) e in
    rw (last, coalesce)

module _ (k b : ℕ) (h : Headers) (c d : Cell) (next after : ℕ) (ne : next ≢ 0)
    (e : h b ≡ header c next) (f : h next ≡ header d after) where
  second : h (h b).next ≡ header d after
  second = ap h (ap (λ (x : HeapBlock). x.next) e) ∙ f

  more : ((h b).next == 0) ≡ false
  more = let z : (next == 0) ≡ false = ground arith in ap (λ (x : HeapBlock). x.next == 0) e ∙ z

  coalesce-stop : d.free ≡ false → coalesce (suc k) b h ≡ some h
  unfolding coalesce
  coalesce-stop u =
      let used : (h (h b).next).free ≡ false = ap (λ (x : HeapBlock). x.free) second ∙ u in
      rw (more, used, coalesce)

  coalesce-join : d.free ≡ true → coalesce (suc k) b h ≡ coalesce k b (joined h b)
  unfolding coalesce
  coalesce-join u =
      let idle : (h (h b).next).free ≡ true = ap (λ (x : HeapBlock). x.free) second ∙ u in
      let sound : ((h (h b).next).magic == heap_magic) ≡ true =
        ap (λ (x : HeapBlock). x.magic == heap_magic) second in
      rw (more, idle, sound, coalesce)

  joined-header :
      c.size + header_size + d.size < 2 ^ 64
      → joined h b
        ≡ put h b (header (record { size = c.size + header_size + d.size; free = c.free }) after)
  joined-header l = ap (put h b) (
      ap₂ join e second
      ∙ ap (λ t. header (record { size = t; free = c.free }) after)
          (let fits : (c.size + header_size + d.size) % 2 ^ 64 ≡ c.size + header_size + d.size =
              omega arith in
            fits))

-- What the loop leaves of the chain from its block on.
record Merged (k b n : ℕ) (h : Headers) (cs : List Cell) : Type 0 where
  h' : Headers
  answer : coalesce k b h ≡ some h'
  chain : Chain h' b (merge n cs)
  others : (x : ℕ) → x ≢ b → h' x ≡ h x

coalesce-Merged :
    (k b n : ℕ) (h : Headers) (cs : List Cell)
    → Chain h b (free_cell n ∷ cs)
    → length cs < k
    → b + header_size + n + total cs < 2 ^ 64
    → Merged k b n h cs
coalesce-Merged zero b n h cs p l t = absurd (omega arith)
coalesce-Merged (suc k) b n h [] p l t = record {
  h' = h;
  answer = coalesce-end k b h (free_cell n) p.1.0;
  chain = p;
  others = λ x d. refl;
}
coalesce-Merged (suc k) b n h (d ∷ ds) (ne, (e, (ne', (f, p)))) l t = elim (Bool-cases d.free) [
  | inr used ↦ record {
    h' = h;
    answer =
        coalesce-stop k b h (free_cell n) d (b + header_size + n)
          (follow (b + header_size + n) d ds) ne' e f used;
    chain = subst (Chain h b) (sym (merge-stop n d ds used)) (ne, (e, (ne', (f, p))));
    others = λ x d. refl;
  }
  | inl idle ↦
      let next : ℕ = b + header_size + n in
      let m : ℕ = n + header_size + d.size in
      let after : ℕ = follow next d ds in
      let h1 : Headers = put h b (header (free_cell m) after) in
      let same : after ≡ follow b (free_cell m) ds =
        follow_same next b d (free_cell m) ds (omega arith) in
      let tail : Chain h1 after ds =
        rest_kept h h1 next d ds (λ x k. put_ne h b _ x (omega arith)) p in
      let chain : Chain h1 b (free_cell m ∷ ds) = (
        ne,
        (put_self h b _ ∙ ap (header (free_cell m)) same, subst (λ t. Chain h1 t ds) same tail),
      ) in
      let r = coalesce-Merged k b m h1 ds chain (omega arith) (omega arith) in
      let step =
        coalesce-join k b h (free_cell n) d next after ne' e f idle
        ∙ ap (coalesce k b)
            (joined-header k b h (free_cell n) d next after ne' e f (omega arith)) in
      record {
        h' = r.h';
        answer = step ∙ r.answer;
        chain = subst (Chain r.h' b) (sym (merge-join n d ds idle)) r.chain;
        others = λ x k. r.others x k ∙ put_ne h b _ x k;
      }
]

kfree-run :
    (b : ℕ) (s : Heap) (c : Cell) (next : ℕ) (h : Headers)
    → b + header_size < 2 ^ 64
    → s.at b ≡ header c next
    → c.free ≡ false
    → coalesce fuel b (put s.at b (header (free_cell c.size) next)) ≡ some h
    → kfree (payload_of b) s ≡ some (record s { at = h })
unfolding kfree
kfree-run b s c next h l e u r =
    let place : block_from_payload (payload_of b) ≡ b = omega arith in
    let given : (payload_of b == 0) ≡ false = ground arith in
    let sound : not ((s.at b).magic == heap_magic) ≡ false =
      ap (λ (x : HeapBlock). not (x.magic == heap_magic)) e in
    let used : (s.at b).free ≡ false = ap (λ (x : HeapBlock). x.free) e ∙ u in
    let marked : coalesce fuel b (put s.at b (record (s.at b) { free = true })) ≡ some h =
      ap (λ (x : HeapBlock). coalesce fuel b (put s.at b (record x { free = true }))) e ∙ r in
    rw (given, place, sound, used, marked, kfree)

kfree-again :
    (b : ℕ) (s : Heap) (c : Cell) (next : ℕ)
    → b + header_size < 2 ^ 64
    → s.at b ≡ header c next
    → c.free ≡ true
    → kfree (payload_of b) s ≡ some s
unfolding kfree
kfree-again b s c next l e u =
    let place : block_from_payload (payload_of b) ≡ b = omega arith in
    let given : (payload_of b == 0) ≡ false = ground arith in
    let sound : not ((s.at b).magic == heap_magic) ≡ false =
      ap (λ (x : HeapBlock). not (x.magic == heap_magic)) e in
    let idle : (s.at b).free ≡ true = ap (λ (x : HeapBlock). x.free) e ∙ u in
    rw (given, place, sound, idle, kfree)

-- On a heap that is tiled by cells one of which is in use: kfree of its payload ends, frees that cell, joins
-- it with the free cells directly after it, and leaves the heap tiled; a second kfree of the same
-- payload changes nothing.
pub kfree-IsHeap :
    (s : Heap) (pre : List Cell) (c : Cell) (post : List Cell)
    → IsHeap s (pre ++ (c ∷ post))
    → c.free ≡ false
    → let ptr = kernel_heap_start + total pre + header_size in
      (t : Heap) × ((kfree ptr s ≡ some t)
        × (IsHeap t (pre ++ merge c.size post) × (kfree ptr t ≡ some t)))
kfree-IsHeap s pre c post w u =
    let b : ℕ = kernel_heap_start + total pre in
    let whole = total-append pre (c ∷ post) in
    let rounds = length-append pre (c ∷ post) in
    let (ne, (e, p)) = Chain-suffix s.at kernel_heap_start b pre c post refl w.chain in
    let h0 : Headers = put s.at b (header (free_cell c.size) (follow b c post)) in
    let same : follow b c post ≡ follow b (free_cell c.size) post =
      follow_same b b c (free_cell c.size) post refl in
    let tail : Chain h0 (follow b c post) post =
      rest_kept s.at h0 b c post (λ x k. put_ne s.at b _ x (omega arith)) p in
    let chain : Chain h0 b (free_cell c.size ∷ post) = (
      ne,
      (
        put_self s.at b _ ∙ ap (header (free_cell c.size)) same,
        subst (λ t. Chain h0 t post) same tail,
      ),
    ) in
    let r =
      coalesce-Merged fuel b c.size h0 post chain
        (omega (arith, length-le-total (pre ++ (c ∷ post)), w.tiles, rounds))
        (omega (arith, whole, w.tiles)) in
    let (m, (ds, shape)) = merge-cons c.size post in
    let joined_chain : Chain r.h' b (free_cell m ∷ ds) = subst (Chain r.h' b) shape r.chain in
    let t : Heap = record s { at = r.h' } in
    let small : b + header_size < 2 ^ 64 = omega (arith, whole, w.tiles) in
    (
      t,
      (
        kfree-run b s c (follow b c post) r.h' small e u r.answer,
        (
          record {
            head = w.head;
            chain =
                subst (λ q. Chain r.h' kernel_heap_start (pre ++ q)) (sym shape)
                  (Chain-replace s.at r.h' kernel_heap_start b pre c post (free_cell m) ds refl
                    w.chain (λ x k. r.others x (omega arith) ∙ put_ne s.at b _ x (omega arith))
                    joined_chain);
            tiles =
                total-append pre (merge c.size post)
                ∙ ap (λ q. total pre + q) (total-merge c.size post)
                ∙ sym whole
                ∙ w.tiles;
          },
          kfree-again b t (free_cell m) (follow b (free_cell m) ds) small joined_chain.1.0 refl,
        ),
      ),
    )
