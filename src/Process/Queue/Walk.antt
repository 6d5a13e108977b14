-- ===== src/Process/Queue/Walk.antt =====
-- The walks over the links: `queue_remove` takes a process out of the list, `queue_contains` looks
-- for one, and both end.
use ares_os.Prelude.{
  ℕ, zero, suc, ◌+◌, ◌-◌, ◌%◌, ◌^◌, ◌<◌, ◌≡◌, refl, ◌∙◌, sym, ap, true, false, none, some, List, [],
  ◌∷◌, arith, ◌==◌, length, has, remove, Distinct, inl, inr, Bool-cases, if◌then◌else◌,
  remove-Distinct, remove-All, length-remove, remove_none,
}
use mathlib.Core.Path.{subst}
use ares_os.Process.Table.{
  Table, Ptr, set_next, max_processes, SameButLinks, SameButLinks-trans, set_next-SameButLinks,
  set_next_self, set_next_ne,
}
use ares_os.Process.Queue.{
  ProcessQueue, unlink, remove_loop, queue_remove, contains_loop, queue_contains,
}
use ares_os.Process.Queue.Rep.{Chain, last_or, IsQueue, Chain-frame, Chain-set_next, length-le-max}
use ares_os.Process.Queue.Fifo.{SpareOthers, has-ne}

-- The pointer `prev` of the walk when it meets `proc`.
abbrev before : Ptr → ℕ → List ℕ → Ptr
before d proc [] = d
before d proc (y ∷ ys) = if proc == y then d else before (some y) proc ys

contains_loop-has :
    (fuel : ℕ) (t : Table) (proc : ℕ) (p : Ptr) (xs : List ℕ)
    → Chain t p xs
    → length xs < fuel
    → contains_loop fuel t proc p ≡ some (has proc xs)
unfolding contains_loop
contains_loop-has zero t proc p xs c h = elim h [ ]
contains_loop-has (suc fuel) t proc p [] c h = rw c
contains_loop-has (suc fuel) t proc p (x ∷ xs) c h =
    rw (c.0) (ground (arith, contains_loop-has fuel t proc (t x).next xs c.1 (omega arith)))

-- `queue_contains` says whether the process is in the queue; 65 rounds are enough for it to end.
pub queue_contains-has :
    (t : Table) (q : ProcessQueue) (xs : List ℕ) (proc : ℕ)
    → IsQueue t q xs
    → queue_contains 65 t q proc ≡ some (has proc xs)
unfolding queue_contains
queue_contains-has t q xs proc v =
    contains_loop-has 65 t proc q.head xs v.chain (omega (arith, length-le-max t q xs v))

-- The walk stops at `proc` and unlinks it, or runs off the end and changes nothing.
remove_loop-stops :
    (fuel : ℕ) (t : Table) (q : ProcessQueue) (proc : ℕ) (d p : Ptr) (xs : List ℕ)
    → Chain t p xs
    → length xs < fuel
    → remove_loop fuel t q proc d p
      ≡ some (if has proc xs then unlink t q (before d proc xs) proc else (t, q))
unfolding remove_loop
remove_loop-stops zero t q proc d p xs c h = elim h [ ]
remove_loop-stops (suc fuel) t q proc d p [] c h = rw c
remove_loop-stops (suc fuel) t q proc d p (x ∷ xs) c h = rw (c.0) (elim (Bool-cases (proc == x)) [
  | inl e ↦
      let e' : proc ≡ x = ground arith in
      let s : (x == proc) ≡ true = ground arith in
      rw (s, e) (ap (λ k. some (unlink t q d k)) (sym e'))
  | inr e ↦
      let s : (x == proc) ≡ false = ground arith in
      rw (s, e) (remove_loop-stops fuel t q proc (some x) (t x).next xs c.1 (omega arith))
])

before-has :
    (y proc : ℕ) (ys : List ℕ)
    → (r : ℕ) × (before (some y) proc ys ≡ some r) × (has r (y ∷ ys) ≡ true)
before-has y proc [] = (y, refl, ground arith)
before-has y proc (z ∷ zs) = elim (Bool-cases (proc == z)) [
  | inl e ↦ (y, rw e, ground arith)
  | inr e ↦ let (r, b, h) = before-has z proc zs in (r, rw e b, ground arith)
]

before-ne :
    (y proc : ℕ) (ys : List ℕ) (r : ℕ)
    → (proc == y) ≡ false
    → before (some y) proc ys ≡ some r
    → (proc == r) ≡ false
before-ne y proc [] r n b = let e : y ≡ r = cc in ground arith
before-ne y proc (z ∷ zs) r n b = elim (Bool-cases (proc == z)) [
  | inl e ↦ let e' : y ≡ r = ground arith in ground arith
  | inr e ↦ before-ne z proc zs r e (ground arith)
]

-- A chain whose entry `proc`, not the first, is bypassed.
Chain-bypass :
    (t u : Table) (proc r : ℕ) (p : Ptr) (y : ℕ) (ys : List ℕ)
    → Chain t p (y ∷ ys)
    → Distinct (y ∷ ys)
    → (proc == y) ≡ false
    → has proc ys ≡ true
    → before (some y) proc ys ≡ some r
    → (u r).next ≡ (t proc).next
    → ((a : ℕ) → (r == a) ≡ false → (proc == a) ≡ false → (u a).next ≡ (t a).next)
    → Chain u p (y ∷ remove proc ys)
Chain-bypass t u proc r p y [] c d n h b l same = absurd (cc)
Chain-bypass t u proc r p y (z ∷ zs) c d n h b l same = elim (Bool-cases (proc == z)) [
  | inl e ↦
      let e' : proc ≡ z = ground arith in
      let s : y ≡ r = ground arith in
      let out : has proc zs ≡ false = ap (λ k. has k zs) e' ∙ d.1.0 in
      let out' : has r zs ≡ false = ground (arith, d.0) in
      let link : (u y).next ≡ (t z).next = ap (λ k. (u k).next) s ∙ l ∙ ap (λ k. (t k).next) e' in
      rw (e, link)
        (
          c.0,
          Chain-frame t u (t z).next zs
              (λ a k. same a (has-ne a r zs k out') (has-ne a proc zs k out)) c.1.1,
        )
  | inr e ↦
      let (r', b', k) = before-has z proc zs in
      let b'' : before (some z) proc zs ≡ some r = ground arith in
      let member : has r (z ∷ zs) ≡ true = ground arith in
      let other : (r == y) ≡ false = let o = has-ne r y (z ∷ zs) member d.0 in ground arith in
      rw (e, same y other n)
        (c.0, Chain-bypass t u proc r (t y).next z zs c.1 d.1 e (ground arith) b'' l same)
]

-- Where the tail pointer goes.
tail-unlink :
    (t : Table) (d p : Ptr) (proc : ℕ) (ys : List ℕ)
    → Chain t p ys
    → has proc ys ≡ true
    → (elim (t proc).next [ none ↦ before d proc ys | some _ ↦ last_or d ys ])
      ≡ last_or d (remove proc ys)
tail-unlink t d p proc [] c h = absurd (cc)
tail-unlink t d p proc (y ∷ []) c h =
    let e : (proc == y) ≡ true = ground arith in
    let e' : proc ≡ y = ground arith in
    let n : (t proc).next ≡ none = ap (λ k. (t k).next) e' ∙ c.1 in ground (arith, n)
tail-unlink t d p proc (y ∷ z ∷ zs) c h = elim (Bool-cases (proc == y)) [
  | inl e ↦
      let e' : proc ≡ y = ground arith in
      let n : (t proc).next ≡ some z = ap (λ k. (t k).next) e' ∙ c.1.0 in rw (e, n)
  | inr e ↦
      let b : before d proc (y ∷ z ∷ zs) ≡ before (some y) proc (z ∷ zs) = rw e in
      let r : remove proc (y ∷ z ∷ zs) ≡ y ∷ remove proc (z ∷ zs) = rw e in
      ap (λ k. elim (t proc).next [ none ↦ k | some _ ↦ last_or (some y) (z ∷ zs) ]) b
      ∙ tail-unlink t (some y) (t y).next proc (z ∷ zs) c.1 (ground arith)
      ∙ ap (last_or d) (sym r)
]

-- Only the links of the queue's own entries are written.
abbrev pub Removed : Table → List ℕ → ℕ → Table × ProcessQueue → Type 0
Removed t xs proc (u, q) = IsQueue u q (remove proc xs) × SameButLinks t u × SpareOthers t u xs

module _ (t : Table) (q : ProcessQueue) (proc : ℕ) where
  rest-IsQueue :
      (u : Table) (head tail : Ptr) (xs : List ℕ)
      → IsQueue t q xs
      → has proc xs ≡ true
      → Chain u head (remove proc xs)
      → tail ≡ last_or none (remove proc xs)
      → IsQueue u
          (record { head = head; tail = tail; count = (q.count + 2 ^ 32 - 1) % 2 ^ 32 })
          (remove proc xs)
  rest-IsQueue u head tail xs v h c e = record {
    chain = c;
    tail = e;
    count = omega (arith, v.count, length-remove proc xs h);
    distinct = remove-Distinct proc xs v.distinct;
    entries = remove-All (λ k. k < max_processes) proc xs v.entries;
  }

  unlink-first :
      (x : ℕ) (xs : List ℕ)
      → IsQueue t q (x ∷ xs)
      → (proc == x) ≡ true
      → Removed t (x ∷ xs) proc (unlink t q none proc)
  unfolding unlink
  unlink-first x xs v e =
      let e' : proc ≡ x = ground arith in
      let out : has proc xs ≡ false = ap (λ k. has k xs) e' ∙ v.distinct.0 in
      let c : Chain t (t proc).next xs = subst (λ k. Chain t (t k).next xs) (sym e') v.chain.1 in
      let c' = Chain-set_next t proc none (t proc).next xs out c in
      let r : remove proc (x ∷ xs) ≡ xs = rw e in
      let b : before none proc (x ∷ xs) ≡ none = rw e in
      (
        rest-IsQueue (set_next t proc none) (t proc).next _ (x ∷ xs) v (ground arith) (rw r c') (
            ap (λ k. elim (t proc).next [ none ↦ k | some _ ↦ q.tail ]) (sym b)
            ∙ ap (λ k. elim (t proc).next [ none ↦ before none proc (x ∷ xs) | some _ ↦ k ]) v.tail
            ∙ tail-unlink t none q.head proc (x ∷ xs) v.chain (ground arith)),
        set_next-SameButLinks t proc none,
        λ a h. ap (λ k. k.next) (set_next_ne t proc none a (ground arith)),
      )

  unlink-later :
      (x : ℕ) (xs : List ℕ) (r : ℕ)
      → IsQueue t q (x ∷ xs)
      → (proc == x) ≡ false
      → has proc xs ≡ true
      → before none proc (x ∷ xs) ≡ some r
      → has r (x ∷ xs) ≡ true
      → Removed t (x ∷ xs) proc (unlink t q (some r) proc)
  unfolding unlink
  unlink-later x xs r v n h b m =
      let t' = set_next t r (t proc).next in
      let u = set_next t' proc none in
      let b' : before (some x) proc xs ≡ some r = ground arith in
      let apart : (proc == r) ≡ false = before-ne x proc xs r n b' in
      let spare : (a : ℕ) → (r == a) ≡ false → (proc == a) ≡ false → (u a).next ≡ (t a).next =
        λ a i j.
          ap (λ k. k.next) (set_next_ne t' proc none a j ∙ set_next_ne t r (t proc).next a i) in
      let link : (u r).next ≡ (t proc).next =
        ap (λ k. k.next) (set_next_ne t' proc none r apart) ∙ set_next_self t r (t proc).next in
      let e : remove proc (x ∷ xs) ≡ x ∷ remove proc xs = rw n in
      (
        rest-IsQueue u q.head _ (x ∷ xs) v (ground arith)
            (rw e (Chain-bypass t u proc r q.head x xs v.chain v.distinct n h b' link spare))
            (ap (λ k. elim (t proc).next [ none ↦ k | some _ ↦ q.tail ]) (sym b)
              ∙ ap (λ k. elim (t proc).next [ none ↦ before none proc (x ∷ xs) | some _ ↦ k ])
                  v.tail
              ∙ tail-unlink t none q.head proc (x ∷ xs) v.chain (ground arith)),
        SameButLinks-trans t t' u (set_next-SameButLinks t r (t proc).next)
            (set_next-SameButLinks t' proc none),
        λ a k.
            let i = has-ne r a (x ∷ xs) m k in
            let j = has-ne proc a (x ∷ xs) (ground arith) k in
            spare a (ground arith) (ground arith),
      )

  unlink-Removed :
      (xs : List ℕ)
      → IsQueue t q xs
      → has proc xs ≡ true
      → Removed t xs proc (unlink t q (before none proc xs) proc)
  unlink-Removed [] v h = absurd (cc)
  unlink-Removed (x ∷ xs) v h = elim (Bool-cases (proc == x)) [
    | inl e ↦
        let b : before none proc (x ∷ xs) ≡ none = rw e in
        subst (λ d. Removed t (x ∷ xs) proc (unlink t q d proc)) (sym b) (unlink-first x xs v e)
    | inr e ↦
        let (r, b, m) = before-has x proc xs in
        let b' : before none proc (x ∷ xs) ≡ some r = ground arith in
        subst (λ d. Removed t (x ∷ xs) proc (unlink t q d proc)) (sym b')
          (unlink-later x xs r v e (ground arith) b' m)
  ]

  -- `queue_remove` ends within 65 rounds. It takes the process out of the queue and keeps the order
  -- of the rest; of a process that is not in the queue it changes nothing. It writes no link outside
  -- the queue, and nothing but links.
  pub queue_remove-remove :
      (xs : List ℕ)
      → IsQueue t q xs
      → (out : Table × ProcessQueue) × (queue_remove 65 t q proc ≡ some out) × Removed t xs proc out
  unfolding queue_remove
  queue_remove-remove xs v =
      let stop =
        remove_loop-stops 65 t q proc none q.head xs v.chain
          (omega (arith, length-le-max t q xs v)) in
      elim (Bool-cases (has proc xs)) [
        | inl h ↦ (unlink t q (before none proc xs) proc, stop ∙ rw h, unlink-Removed xs v h)
        | inr h ↦ ((t, q), stop ∙ rw h, (rw (remove_none proc xs h) v, λ p. refl, λ a k. refl))
      ]
