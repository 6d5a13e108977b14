-- ===== src/Scheduler/Mlq/Highest.antt =====
-- The multi-level queue serves the first level that is not empty, the level of the highest priority.
use mathlib.Core.Path.{subst}
use ares_os.Prelude.{
  ℕ, zero, suc, ◌+◌, ◌≤◌, ◌<◌, ◌≡◌, refl, ◌∙◌, sym, ap, true, false, none, some, List, [], ◌∷◌,
  ◌++◌, arith, ◌==◌, ◌⊎◌, set, set-get_or_self, has, has-append, remove, inl, inr, Bool-cases,
  replicate, get_or-replicate, ltb, min,
}
use ares_os.Process.Table.{Table, Ptr, max_processes, SameButLinks}
use ares_os.Process.Queue.{ProcessQueue, queue_init, queue_push, queue_pop}
use ares_os.Process.Queue.Fifo.{queue_init-IsQueue}
use ares_os.Scheduler.Stats.{inc64}
use ares_os.Scheduler.Levels.{queue_at, IsLevels, change, push-IsLevels, pop-IsLevels, pop-empty}
use ares_os.Scheduler.Sorted.{
  List-cases, IsSorted, IsSorted-change, IsSorted-congr, remove_first-remove,
}
use ares_os.Scheduler.Mlq.{
  Mlq, mlq_init, mlq_level_of, mlq_add, mlq_remove, mlq_scan, mlq_next, mlq_levels,
}

abbrev pub IsMlq : Table → Mlq → (ℕ → List ℕ) → Type 0
IsMlq t s levels = IsSorted mlq_level_of t s.queues levels

-- `mlq_init` leaves every level empty.
pub mlq_init-IsMlq : (t : Table) → IsMlq t mlq_init (λ i. [])
unfolding mlq_init
mlq_init-IsMlq t = record {
  held = record {
    size = refl;
    queues = λ i l. rw (get_or-replicate 4 queue_init i) (queue_init-IsQueue t);
    apart = λ i j a l k d m. refl;
  };
  placed = λ i a l m. absurd (cc);
}

-- Adding a process that is in no level appends it to the level of its priority, where priorities
-- above 3 count as 3, and keeps every process in its place.
pub mlq_add-IsMlq :
    (t : Table) (s : Mlq) (levels : ℕ → List ℕ) (proc : ℕ)
    → IsMlq t s levels
    → ((k : ℕ) → k < 4 → has proc (levels k) ≡ false)
    → proc < max_processes
    → let (u, s') = mlq_add t s proc in
      let i = mlq_level_of ((t proc).priority) in
      IsMlq u s' (change levels i (levels i ++ (proc ∷ []))) × SameButLinks t u
unfolding mlq_add
mlq_add-IsMlq t s levels proc v out b =
    let i = mlq_level_of ((t proc).priority) in
    let inside : i < 4 = ground arith in
    let (w, same) = push-IsLevels 4 t s.queues levels i proc v.held inside out b in
    let (u, q) = queue_push t (queue_at s.queues i) proc in
    (
      IsSorted-change mlq_level_of t u s.queues (set s.queues i q) levels i
          (levels i ++ (proc ∷ [])) v w same
          (λ a m. elim (Bool-cases (has a (levels i))) [
            | inl old ↦ v.placed i a inside old
            | inr new ↦
                let e : a ≡ proc = ground (arith, has-append a (levels i) (proc ∷ [])) in
                ap (λ k. mlq_level_of ((t k).priority)) e
          ]),
      same,
    )

-- Removing a process takes it out of whatever level it is in; the walks end.
pub mlq_remove-IsMlq :
    (t : Table) (s : Mlq) (levels : ℕ → List ℕ) (proc : ℕ)
    → IsMlq t s levels
    → (out : Table × Mlq) × (mlq_remove t s proc ≡ some out)
      × (after : ℕ → List ℕ) × IsMlq out.0 out.1 after
      × ((k : ℕ) → k < 4 → after k ≡ remove proc (levels k))
unfolding mlq_remove
mlq_remove-IsMlq t s levels proc v =
    let (out, r, after, w, same, f) =
      remove_first-remove 4 4 0 t s.queues levels proc v.held refl (λ k l. elim l [ ]) in
    (
      (out.0, record s { queues = out.1 }),
      ground (arith, r),
      after,
      IsSorted-congr mlq_level_of t out.0 s.queues out.1 levels after proc v w same f,
      f,
    )

-- What a scan of the levels from `i` on finds.
abbrev Scanned : ℕ → Table → Mlq → (ℕ → List ℕ) → Ptr × Table × Mlq → Type 0
Scanned i t s levels out =
    (((k : ℕ) → i ≤ k → k < 4 → levels k ≡ []) × (out ≡ (none, t, s)))
    ⊎ ((k : ℕ) × (x : ℕ) × (xs : List ℕ) × (i ≤ k)
        × (k < 4)
        × (levels k ≡ x ∷ xs)
        × ((j : ℕ) → i ≤ j → j < k → levels j ≡ [])
        × (out.0 ≡ some x)
        × IsLevels 4 out.1 out.2.queues (change levels k xs)
        × SameButLinks t out.1)

-- The state after a process of level `i` was taken.
abbrev switched : Mlq → ℕ → ProcessQueue → Mlq
switched s i q = record {
  queues = set s.queues i q;
  stats = record (s.stats) { context_switches = inc64 s.stats.context_switches };
  level_ticks = replicate mlq_levels 0;
}

mlq_scan-hit :
    (n i : ℕ) (t : Table) (s : Mlq) (x : ℕ)
    → (queue_pop t (queue_at s.queues i)).0 ≡ some x
    → mlq_scan (suc n) i t s ≡ (
      some x,
      (queue_pop t (queue_at s.queues i)).1,
      switched s i (queue_pop t (queue_at s.queues i)).2,
    )
unfolding mlq_scan
mlq_scan-hit n i t s x r = rw (r, mlq_scan)

mlq_scan-miss :
    (n i : ℕ) (t : Table) (s : Mlq)
    → queue_pop t (queue_at s.queues i) ≡ (none, t, queue_at s.queues i)
    → set s.queues i (queue_at s.queues i) ≡ s.queues
    → mlq_scan (suc n) i t s ≡ mlq_scan n (i + 1) t s
unfolding mlq_scan
mlq_scan-miss n i t s p keep = ground (arith, p, keep)

mlq_scan-Scanned :
    (n i : ℕ) (t : Table) (s : Mlq) (levels : ℕ → List ℕ)
    → IsLevels 4 t s.queues levels
    → i + n ≡ 4
    → Scanned i t s levels (mlq_scan n i t s)
unfolding mlq_scan
mlq_scan-Scanned zero i t s levels v h = inl ((λ k l m. absurd (omega arith)), refl)
mlq_scan-Scanned (suc n) i t s levels v h = elim (List-cases (levels i)) [
  | inl e ↦
      let inside : i < 4 = omega arith in
      let p = pop-empty 4 t s.queues levels i v inside e in
      let keep = set-get_or_self s.queues i queue_init in
      let step = mlq_scan-miss n i t s p keep in
      subst (Scanned i t s levels) (sym step)
        (elim (mlq_scan-Scanned n (i + 1) t s levels v (omega arith)) [
          | inl (none_above, r) ↦ inl (
            (λ k l m. elim (Bool-cases (i == k)) [
              | inl d ↦ let d' : i ≡ k = ground arith in ap levels (sym d') ∙ e
              | inr d ↦ none_above k (ground arith) m
            ]),
            r,
          )
          | inr (k, x, xs, a, l, f, below, r, w, same) ↦ inr (
            k,
            x,
            xs,
            omega arith,
            l,
            f,
            (λ j b c. elim (Bool-cases (i == j)) [
              | inl d ↦ let d' : i ≡ j = ground arith in ap levels (sym d') ∙ e
              | inr d ↦ below j (ground arith) c
            ]),
            r,
            w,
            same,
          )
        ])
  | inr (x, xs, e) ↦
      let inside : i < 4 = omega arith in
      let (r, w, same) = pop-IsLevels 4 t s.queues levels i x xs v inside e in
      let step = mlq_scan-hit n i t s x r in
      subst (Scanned i t s levels) (sym step)
        (inr (i, x, xs, omega arith, inside, e, (λ j a b. absurd (omega arith)), refl, w, same))
]

-- `mlq_next` returns NULL exactly when every level is empty, and then changes nothing. Otherwise it
-- takes the front of the first level that is not empty and keeps every process in its place.
pub mlq_next-first :
    (t : Table) (s : Mlq) (levels : ℕ → List ℕ)
    → IsMlq t s levels
    → (((k : ℕ) → k < 4 → levels k ≡ []) × (mlq_next t s ≡ (none, t, s)))
      ⊎ ((k : ℕ) × (x : ℕ) × (xs : List ℕ) × (k < 4)
          × (levels k ≡ x ∷ xs)
          × ((j : ℕ) → j < k → levels j ≡ [])
          × ((mlq_next t s).0 ≡ some x)
          × IsMlq (mlq_next t s).1 (mlq_next t s).2 (change levels k xs))
unfolding mlq_next
mlq_next-first t s levels v = elim (mlq_scan-Scanned 4 0 t s levels v.held (omega arith)) [
  | inl (empty, r) ↦ inl ((λ k l. empty k (omega arith) l), r)
  | inr (k, x, xs, a, l, f, below, r, w, same) ↦
      let (p, u, s') = mlq_scan 4 0 t s in
      inr (
        k,
        x,
        xs,
        l,
        f,
        (λ j m. below j (omega arith) m),
        r,
        IsSorted-change mlq_level_of t u s.queues s'.queues levels k xs v w same
            (λ b m. v.placed k b l (ap (has b) f ∙ ground arith)),
      )
]

-- No process that waits has a higher priority than the one that `mlq_next` returns, where
-- priorities above 3 count as 3.
pub mlq_next-le :
    (t : Table) (s : Mlq) (levels : ℕ → List ℕ) (p i a : ℕ)
    → IsMlq t s levels
    → (mlq_next t s).0 ≡ some p
    → i < 4
    → has a (levels i) ≡ true
    → min ((t a).priority) 3 ≤ min ((t p).priority) 3
mlq_next-le t s levels p i a v e l m = elim (mlq_next-first t s levels v) [
  | inl (empty, n) ↦ absurd (cc)
  | inr (k, x, xs, h, f, below, r, w) ↦
      let same : x ≡ p = ground arith in
      let front : has p (levels k) ≡ true = ap (has p) f ∙ ground arith in
      let at_p = v.placed k p h front in
      let at_a = v.placed i a l m in
      elim (Bool-cases (ltb i k)) [
        | inl up ↦ absurd (cc (ap (has a) (below i (ground arith))))
        | inr down ↦ ground arith
      ]
]
