-- ===== src/Process/Queue/Fifo.antt =====
-- `queue_push` and `queue_pop` behave as a FIFO list.
use ares_os.Prelude.{
  ℕ, ◌<◌, ◌≡◌, refl, ◌∙◌, sym, ap, true, false, none, some, List, [], ◌∷◌, ◌++◌, arith, ◌==◌,
  length-append, has, Distinct, append-Distinct, append-All, inl, inr, Bool-cases,
}
use ares_os.Process.Table.{
  Table, Ptr, set_next, max_processes, SameButLinks, SameButLinks-trans, set_next-SameButLinks,
  set_next_self, set_next_ne,
}
use ares_os.Process.Queue.{ProcessQueue, queue_init, queue_push, queue_pop}
use ares_os.Process.Queue.Rep.{Chain, last_or, IsQueue, Chain-set_next, last_or-append, last_or-has}

-- `queue_init` gives the empty queue.
pub queue_init-IsQueue : (t : Table) → IsQueue t queue_init []
unfolding queue_init
queue_init-IsQueue t = record {
  chain = refl;
  tail = refl;
  count = refl;
  distinct = tt;
  entries = tt;
}

Chain-append :
    (t u : Table) (p : Ptr) (x : ℕ) (xs : List ℕ) (l proc : ℕ)
    → Chain t p (x ∷ xs)
    → Distinct (x ∷ xs)
    → last_or (some x) xs ≡ some l
    → (u l).next ≡ some proc
    → (u proc).next ≡ none
    → ((a : ℕ) → (l == a) ≡ false → has a (x ∷ xs) ≡ true → (u a).next ≡ (t a).next)
    → Chain u p ((x ∷ xs) ++ (proc ∷ []))
Chain-append t u p x [] l proc c d e n z same =
    let e' : l ≡ x = ground arith in (c.0, (ap (λ k. (u k).next) (sym e') ∙ n, z))
Chain-append t u p x (y ∷ xs) l proc c d e n z same =
    let other : (l == x) ≡ false = ground (arith, last_or-has y xs l e, d.0) in
    let rest =
      Chain-append t u (t x).next y xs l proc c.1 d.1 e n z (λ a h k. same a h (ground arith)) in
    (c.0, (same x other (ground arith) ∙ rest.0, rest.1))

-- What a push does besides: it writes only links of the queue's own entries and of the new one.
abbrev pub SpareOthers : Table → Table → List ℕ → Type 0
SpareOthers t u xs = (a : ℕ) → has a xs ≡ false → (u a).next ≡ (t a).next

abbrev pub Pushed : Table → List ℕ → ℕ → Table × ProcessQueue → Type 0
Pushed t xs proc (u, q) =
    IsQueue u q (xs ++ (proc ∷ [])) × SameButLinks t u × SpareOthers t u (proc ∷ xs)

push_empty :
    (t : Table) (q : ProcessQueue) (proc : ℕ)
    → IsQueue t q []
    → proc < max_processes
    → Pushed t [] proc (queue_push t q proc)
unfolding queue_push
push_empty t q proc v l = rw v.tail (
  record {
    chain = (refl, set_next_self t proc none);
    tail = refl;
    count = omega (arith, v.count);
    distinct = (refl, tt);
    entries = (l, tt);
  },
  set_next-SameButLinks t proc none,
  λ a h. ap (λ c. c.next) (set_next_ne t proc none a (ground arith)),
)

pub has-ne : (a b : ℕ) (xs : List ℕ) → has a xs ≡ true → has b xs ≡ false → (b == a) ≡ false
has-ne a b xs h k = elim (Bool-cases (b == a)) [
  | inl e ↦ let e' : b ≡ a = ground arith in absurd (cc (ap (λ c. has c xs) e'))
  | inr e ↦ e
]

some_last : (x : ℕ) (xs : List ℕ) → last_or (some x) xs ≡ none → ⊥
some_last x [] e = cc
some_last x (y ∷ xs) e = some_last y xs e

push_cons :
    (t : Table) (q : ProcessQueue) (x : ℕ) (xs : List ℕ) (l proc : ℕ)
    → IsQueue t q (x ∷ xs)
    → last_or (some x) xs ≡ some l
    → has proc (x ∷ xs) ≡ false
    → proc < max_processes
    → Pushed t (x ∷ xs) proc (queue_push t q proc)
unfolding queue_push
push_cons t q x xs l proc v e out b =
    let t' = set_next t proc none in
    let u = set_next t' l (some proc) in
    let apart : (l == proc) ≡ false =
      let h = has-ne l proc (x ∷ xs) (last_or-has x xs l e) out in ground arith in
    let spare : (a : ℕ) → (l == a) ≡ false → (proc == a) ≡ false → (u a).next ≡ (t a).next =
      λ a h k. ap (λ c. c.next) (set_next_ne t' l (some proc) a h ∙ set_next_ne t proc none a k) in
    rw (v.tail, e)
      (
        record {
          chain =
              Chain-append t u q.head x xs l proc v.chain v.distinct e
                (set_next_self t' l (some proc))
                (ap (λ c. c.next) (set_next_ne t' l (some proc) proc apart)
                  ∙ set_next_self t proc none)
                (λ a h k. spare a h (has-ne a proc (x ∷ xs) k out));
          tail = sym (last_or-append (some x) xs proc);
          count = omega (arith, v.count, length-append {0} xs (proc ∷ []));
          distinct = append-Distinct (x ∷ xs) proc v.distinct out;
          entries = append-All (λ k. k < max_processes) (x ∷ xs) proc v.entries b;
        },
        SameButLinks-trans t t' u (set_next-SameButLinks t proc none)
            (set_next-SameButLinks t' l (some proc)),
        λ a h.
            spare a
              (let k = has-ne l a (x ∷ xs) (last_or-has x xs l e) (ground arith) in ground arith)
              (ground arith),
      )

-- Pushing a process that is not in the queue appends it, changes nothing of any process but its
-- link, and leaves the links of all processes outside the queue alone.
pub queue_push-append :
    (t : Table) (q : ProcessQueue) (xs : List ℕ) (proc : ℕ)
    → IsQueue t q xs
    → has proc xs ≡ false
    → proc < max_processes
    → Pushed t xs proc (queue_push t q proc)
queue_push-append t q [] proc v out b = push_empty t q proc v b
queue_push-append t q (x ∷ xs) proc v out b = go (last_or (some x) xs) refl
  where
    go : (p : Ptr) → last_or (some x) xs ≡ p → Pushed t (x ∷ xs) proc (queue_push t q proc)
    go none e = absurd (some_last x xs e)
    go (some l) e = push_cons t q x xs l proc v e out b

-- What a pop leaves.
abbrev pub Popped : Table → ℕ → List ℕ → Ptr × Table × ProcessQueue → Type 0
Popped t x xs (r, u, q) =
    (r ≡ some x) × IsQueue u q xs × SameButLinks t u × SpareOthers t u (x ∷ [])

-- Popping returns the front of the queue and leaves the rest; only the link of the process that was
-- taken out changes.
pub queue_pop-cons :
    (t : Table) (q : ProcessQueue) (x : ℕ) (xs : List ℕ)
    → IsQueue t q (x ∷ xs)
    → Popped t x xs (queue_pop t q)
unfolding queue_pop
queue_pop-cons t q x xs v = rw (v.chain.0) (
  refl,
  record {
    chain = Chain-set_next t x none (t x).next xs v.distinct.0 v.chain.1;
    tail = tail_of xs v.chain.1 v.tail;
    count = omega (arith, v.count);
    distinct = v.distinct.1;
    entries = v.entries.1;
  },
  set_next-SameButLinks t x none,
  λ a h. ap (λ c. c.next) (set_next_ne t x none a (ground arith)),
)
  where
    tail_of :
        (ys : List ℕ)
        → Chain t (t x).next ys
        → q.tail ≡ last_or (some x) ys
        → (elim (t x).next [ none ↦ none | some _ ↦ q.tail ]) ≡ last_or none ys
    tail_of [] c e = rw c
    tail_of (y ∷ ys) c e = rw (c.0) e

-- On an empty queue `queue_pop` returns NULL and changes nothing.
pub queue_pop-nil : (t : Table) (q : ProcessQueue) → IsQueue t q [] → queue_pop t q ≡ (none, t, q)
unfolding queue_pop
queue_pop-nil t q v = rw v.chain
