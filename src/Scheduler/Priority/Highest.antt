-- ===== src/Scheduler/Priority/Highest.antt =====
-- The priority policy serves the highest priority first, and within one priority the oldest.
use mathlib.Core.Path.{subst}
use ares_os.Prelude.{
  ℕ, zero, suc, ◌≤◌, ◌<◌, ◌≡◌, refl, ◌∙◌, sym, ap, true, false, none, some, List, [], ◌∷◌, ◌++◌,
  arith, ◌==◌, ◌⊎◌, set, set-get_or_self, has, has-append, remove, inl, inr, Bool-cases,
  get_or-replicate, ltb, min,
}
use ares_os.Process.Table.{Table, Ptr, max_processes, SameButLinks}
use ares_os.Process.Queue.{ProcessQueue, queue_init, queue_push, queue_pop}
use ares_os.Process.Queue.Fifo.{queue_init-IsQueue}
use ares_os.Scheduler.Stats.{inc64}
use ares_os.Scheduler.Levels.{queue_at, IsLevels, change, push-IsLevels, pop-IsLevels, pop-empty}
use ares_os.Scheduler.Sorted.{
  List-cases, IsSorted, IsSorted-change, IsSorted-congr, remove_first-remove,
}
use ares_os.Scheduler.Priority.{
  Priority, prio_init, prio_level, prio_add, prio_remove, prio_scan, prio_next,
}

abbrev pub IsPriority : Table → Priority → (ℕ → List ℕ) → Type 0
IsPriority t s levels = IsSorted prio_level t s.queues levels

-- `prio_init` leaves every level empty.
pub prio_init-IsPriority : (t : Table) → IsPriority t prio_init (λ i. [])
unfolding prio_init
prio_init-IsPriority t = record {
  held = record {
    size = refl;
    queues = λ i l. rw (get_or-replicate 4 queue_init i) (queue_init-IsQueue t);
    apart = λ i j a l k d m. refl;
  };
  placed = λ i a l m. absurd (cc);
}

-- Adding a process that is in no level appends it to the level of its priority, where priorities
-- above 3 count as 3, and keeps every process in its place.
pub prio_add-IsPriority :
    (t : Table) (s : Priority) (levels : ℕ → List ℕ) (proc : ℕ)
    → IsPriority t s levels
    → ((k : ℕ) → k < 4 → has proc (levels k) ≡ false)
    → proc < max_processes
    → let (u, s') = prio_add t s proc in
      let i = prio_level ((t proc).priority) in
      IsPriority u s' (change levels i (levels i ++ (proc ∷ []))) × SameButLinks t u
unfolding prio_add
prio_add-IsPriority t s levels proc v out b =
    let i = prio_level ((t proc).priority) in
    let inside : i < 4 = ground arith in
    let (w, same) = push-IsLevels 4 t s.queues levels i proc v.held inside out b in
    let (u, q) = queue_push t (queue_at s.queues i) proc in
    (
      IsSorted-change prio_level t u s.queues (set s.queues i q) levels i (levels i ++ (proc ∷ []))
          v w same
          (λ a m. elim (Bool-cases (has a (levels i))) [
            | inl old ↦ v.placed i a inside old
            | inr new ↦
                let e : a ≡ proc = ground (arith, has-append a (levels i) (proc ∷ [])) in
                ap (λ k. prio_level ((t k).priority)) e
          ]),
      same,
    )

-- Removing a process takes it out of whatever level it is in; the walks end.
pub prio_remove-IsPriority :
    (t : Table) (s : Priority) (levels : ℕ → List ℕ) (proc : ℕ)
    → IsPriority t s levels
    → (out : Table × Priority) × (prio_remove t s proc ≡ some out)
      × (after : ℕ → List ℕ) × IsPriority out.0 out.1 after
      × ((k : ℕ) → k < 4 → after k ≡ remove proc (levels k))
unfolding prio_remove
prio_remove-IsPriority t s levels proc v =
    let (out, r, after, w, same, f) =
      remove_first-remove 4 4 0 t s.queues levels proc v.held refl (λ k l. elim l [ ]) in
    (
      (out.0, record s { queues = out.1 }),
      ground (arith, r),
      after,
      IsSorted-congr prio_level t out.0 s.queues out.1 levels after proc v w same f,
      f,
    )

-- What a scan from level `i` down finds.
abbrev Scanned : ℕ → Table → Priority → (ℕ → List ℕ) → Ptr × Table × Priority → Type 0
Scanned i t s levels out =
    (((k : ℕ) → k < i → levels k ≡ []) × (out ≡ (none, t, s)))
    ⊎ ((k : ℕ) × (x : ℕ) × (xs : List ℕ) × (k < i)
        × (levels k ≡ x ∷ xs)
        × ((j : ℕ) → k < j → j < i → levels j ≡ [])
        × (out.0 ≡ some x)
        × IsLevels 4 out.1 out.2.queues (change levels k xs)
        × SameButLinks t out.1)

-- The state after a process of level `i` was taken.
abbrev switched : Priority → ℕ → ProcessQueue → Priority
switched s i q = record {
  queues = set s.queues i q;
  stats = record (s.stats) { context_switches = inc64 s.stats.context_switches };
  current_ticks = 0;
}

prio_scan-hit :
    (i : ℕ) (t : Table) (s : Priority) (x : ℕ)
    → (queue_pop t (queue_at s.queues i)).0 ≡ some x
    → prio_scan (suc i) t s ≡ (
      some x,
      (queue_pop t (queue_at s.queues i)).1,
      switched s i (queue_pop t (queue_at s.queues i)).2,
    )
unfolding prio_scan
prio_scan-hit i t s x r = rw (r, prio_scan)

prio_scan-miss :
    (i : ℕ) (t : Table) (s : Priority)
    → queue_pop t (queue_at s.queues i) ≡ (none, t, queue_at s.queues i)
    → set s.queues i (queue_at s.queues i) ≡ s.queues
    → prio_scan (suc i) t s ≡ prio_scan i t s
unfolding prio_scan
prio_scan-miss i t s p keep = ground (arith, p, keep)

prio_scan-Scanned :
    (i : ℕ) (t : Table) (s : Priority) (levels : ℕ → List ℕ)
    → IsLevels 4 t s.queues levels
    → i ≤ 4
    → Scanned i t s levels (prio_scan i t s)
unfolding prio_scan
prio_scan-Scanned zero t s levels v h = inl ((λ k l. elim l [ ]), refl)
prio_scan-Scanned (suc i) t s levels v h = elim (List-cases (levels i)) [
  | inl e ↦
      let p = pop-empty 4 t s.queues levels i v h e in
      let keep = set-get_or_self s.queues i queue_init in
      let step : prio_scan (suc i) t s ≡ prio_scan i t s = prio_scan-miss i t s p keep in
      subst (Scanned (suc i) t s levels) (sym step)
        (elim (prio_scan-Scanned i t s levels v (omega arith)) [
          | inl (none_below, r) ↦ inl (
            (λ k l. elim (Bool-cases (i == k)) [
              | inl d ↦ let d' : i ≡ k = ground arith in ap levels (sym d') ∙ e
              | inr d ↦ none_below k (ground arith)
            ]),
            r,
          )
          | inr (k, x, xs, l, f, above, r, w, same) ↦ inr (
            k,
            x,
            xs,
            omega arith,
            f,
            (λ j a b. elim (Bool-cases (i == j)) [
              | inl d ↦ let d' : i ≡ j = ground arith in ap levels (sym d') ∙ e
              | inr d ↦ above j a (ground arith)
            ]),
            r,
            w,
            same,
          )
        ])
  | inr (x, xs, e) ↦
      let (r, w, same) = pop-IsLevels 4 t s.queues levels i x xs v h e in
      let out = queue_pop t (queue_at s.queues i) in
      let step : prio_scan (suc i) t s ≡ (some x, out.1, switched s i out.2) =
        prio_scan-hit i t s x r in
      subst (Scanned (suc i) t s levels) (sym step)
        (inr (i, x, xs, omega arith, e, (λ j a b. absurd (omega arith)), refl, w, same))
]

-- `prio_next` returns NULL exactly when every level is empty, and then changes nothing. Otherwise it
-- takes the front of the highest level that is not empty and keeps every process in its place.
pub prio_next-highest :
    (t : Table) (s : Priority) (levels : ℕ → List ℕ)
    → IsPriority t s levels
    → (((k : ℕ) → k < 4 → levels k ≡ []) × (prio_next t s ≡ (none, t, s)))
      ⊎ ((k : ℕ) × (x : ℕ) × (xs : List ℕ) × (k < 4)
          × (levels k ≡ x ∷ xs)
          × ((j : ℕ) → k < j → j < 4 → levels j ≡ [])
          × ((prio_next t s).0 ≡ some x)
          × IsPriority (prio_next t s).1 (prio_next t s).2 (change levels k xs))
unfolding prio_next
prio_next-highest t s levels v = elim (prio_scan-Scanned 4 t s levels v.held (omega arith)) [
  | inl found ↦ inl found
  | inr (k, x, xs, l, f, above, r, w, same) ↦ inr (
    k,
    x,
    xs,
    l,
    f,
    above,
    r,
    IsSorted-change prio_level t (prio_scan 4 t s).1 s.queues (prio_scan 4 t s).2.queues levels k xs
        v w same (λ a m. v.placed k a l (ap (has a) f ∙ ground arith)),
  )
]

-- No process that waits has a higher priority than the one that `prio_next` returns, where
-- priorities above 3 count as 3.
pub prio_next-le :
    (t : Table) (s : Priority) (levels : ℕ → List ℕ) (p i a : ℕ)
    → IsPriority t s levels
    → (prio_next t s).0 ≡ some p
    → i < 4
    → has a (levels i) ≡ true
    → min ((t a).priority) 3 ≤ min ((t p).priority) 3
prio_next-le t s levels p i a v e l m = elim (prio_next-highest t s levels v) [
  | inl (empty, n) ↦ absurd (cc)
  | inr (k, x, xs, h, f, above, r, w) ↦
      let same : x ≡ p = ground arith in
      let front : has p (levels k) ≡ true = ap (has p) f ∙ ground arith in
      let at_p = v.placed k p h front in
      let at_a = v.placed i a l m in
      elim (Bool-cases (ltb k i)) [
        | inl up ↦ absurd (cc (ap (has a) (above i (ground arith) l)))
        | inr down ↦ ground arith
      ]
]
