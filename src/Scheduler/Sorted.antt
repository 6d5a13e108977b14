-- ===== src/Scheduler/Sorted.antt =====
-- Levels in which each process stands where its priority puts it, and the parts that the priority
-- policy and the multi-level queue share: taking a process out of its level, and the depth.
use mathlib.Core.Path.{subst}
use ares_os.Prelude.{
  ℕ, zero, suc, ◌+◌, ◌%◌, ◌^◌, ◌<◌, ◌≡◌, refl, ◌∙◌, sym, ap, true, false, Option, none, some, List,
  [], ◌∷◌, arith, ◌==◌, ◌⊎◌, set, has, has-remove_out, remove, remove_none, inl, inr, Bool-cases,
}
use ares_os.Process.Table.{Table, SameButLinks}
use ares_os.Process.Queue.{ProcessQueue, queue_remove, queue_contains}
use ares_os.Process.Queue.Walk.{queue_contains-has}
use ares_os.Scheduler.Levels.{queue_at, IsLevels, change, change_self, change_ne, remove-IsLevels}

-- `for (i = 0; i < 4; i++) if (queue_contains(&queues[i], proc)) { queue_remove(...); return; }`
unfoldable pub remove_first :
    ℕ → ℕ → Table → List ProcessQueue → ℕ → Option (Table × List ProcessQueue)
remove_first zero i t qs proc = some (t, qs)
remove_first (suc n) i t qs proc = elim (queue_contains 65 t (queue_at qs i) proc) [
  | none ↦ none
  | some true ↦ elim (queue_remove 65 t (queue_at qs i) proc) [
    | none ↦ none
    | some (u, q) ↦ some (u, set qs i q)
  ]
  | some false ↦ remove_first n (i + 1) t qs proc
]

-- `for (...) depth += queues[i].count`
unfoldable pub sum_counts : List ProcessQueue → ℕ → ℕ
sum_counts [] acc = acc
sum_counts (q ∷ qs) acc = sum_counts qs ((acc + q.count) % 2 ^ 32)

pub List-cases : (xs : List ℕ) → (xs ≡ []) ⊎ ((x : ℕ) × (ys : List ℕ) × (xs ≡ x ∷ ys))
List-cases [] = inl refl
List-cases (x ∷ xs) = inr (x, xs, refl)

remove_here :
    (n i : ℕ) (t : Table) (qs : List ProcessQueue) (proc : ℕ) (out : Table × ProcessQueue)
    → queue_contains 65 t (queue_at qs i) proc ≡ some true
    → queue_remove 65 t (queue_at qs i) proc ≡ some out
    → remove_first (suc n) i t qs proc ≡ some (out.0, set qs i out.1)
unfolding remove_first
remove_here n i t qs proc out h r = rw (h, remove_first) (rw r)

remove_on :
    (n i : ℕ) (t : Table) (qs : List ProcessQueue) (proc : ℕ)
    → queue_contains 65 t (queue_at qs i) proc ≡ some false
    → remove_first (suc n) i t qs proc ≡ remove_first n (i + 1) t qs proc
unfolding remove_first
remove_on n i t qs proc h = rw (h, remove_first)

-- A process is in at most one level, so `remove_first` takes it out of all.
pub remove_first-remove :
    (m n i : ℕ) (t : Table) (qs : List ProcessQueue) (levels : ℕ → List ℕ) (proc : ℕ)
    → IsLevels m t qs levels
    → i + n ≡ m
    → ((k : ℕ) → k < i → has proc (levels k) ≡ false)
    → (out : Table × List ProcessQueue) × (remove_first n i t qs proc ≡ some out)
      × (after : ℕ → List ℕ) × IsLevels m out.0 out.1 after
      × SameButLinks t out.0
      × ((k : ℕ) → k < m → after k ≡ remove proc (levels k))
unfolding remove_first
remove_first-remove m zero i t qs levels proc v e before = (
  (t, qs),
  refl,
  levels,
  v,
  (λ p. refl),
  λ k l. sym (remove_none proc (levels k) (before k (omega arith))),
)
remove_first-remove m (suc n) i t qs levels proc v e before =
    let inside : i < m = omega arith in
    let found = queue_contains-has t (queue_at qs i) (levels i) proc (v.queues i inside) in
    elim (Bool-cases (has proc (levels i))) [
      | inl h ↦
          let (out, r, w, same) = remove-IsLevels m t qs levels i proc v inside in
          (
            (out.0, set qs i out.1),
            remove_here n i t qs proc out (found ∙ ap some h) r,
            change levels i (remove proc (levels i)),
            w,
            same,
            λ k l. elim (Bool-cases (i == k)) [
              | inl s ↦
                  let s' : i ≡ k = ground arith in
                  subst (λ j. change levels i (remove proc (levels i)) j ≡ remove proc (levels j))
                    s' (change_self levels i (remove proc (levels i)))
              | inr d ↦
                  change_ne levels i (remove proc (levels i)) k d
                  ∙ sym (remove_none proc (levels k) (v.apart i k proc inside l d h))
            ],
          )
      | inr h ↦
          let (out, r, after, w, same, f) =
            remove_first-remove m n (i + 1) t qs levels proc v (omega arith) (λ k l. until k l h) in
          (out, remove_on n i t qs proc (found ∙ ap some h) ∙ r, after, w, same, f)
    ]
  where
    until : (k : ℕ) → k < i + 1 → has proc (levels i) ≡ false → has proc (levels k) ≡ false
    until k l h = elim (Bool-cases (i == k)) [
      | inl s ↦ let s' : i ≡ k = ground arith in subst (λ j. has proc (levels j) ≡ false) s' h
      | inr d ↦ before k (ground arith)
    ]

module _ (level_of : ℕ → ℕ) where
  -- Each process stands at the level of its priority.
  pub record IsSorted (t : Table) (qs : List ProcessQueue) (levels : ℕ → List ℕ) : Type 0 where
    pub held : IsLevels 4 t qs levels
    pub placed : (i a : ℕ) → i < 4 → has a (levels i) ≡ true → level_of ((t a).priority) ≡ i

  same_priority : (t u : Table) → SameButLinks t u → (a : ℕ) → (u a).priority ≡ (t a).priority
  same_priority t u s a = ap (λ c. c.priority) (s a)

  -- The change of one level keeps every process in its place.
  pub IsSorted-change :
      (t u : Table) (qs ps : List ProcessQueue) (levels : ℕ → List ℕ) (i : ℕ) (xs : List ℕ)
      → IsSorted t qs levels
      → IsLevels 4 u ps (change levels i xs)
      → SameButLinks t u
      → ((a : ℕ) → has a xs ≡ true → level_of ((t a).priority) ≡ i)
      → IsSorted u ps (change levels i xs)
  IsSorted-change t u qs ps levels i xs v w s new = record {
    held = w;
    placed = λ k a l m. ap level_of (same_priority t u s a) ∙ (elim (Bool-cases (i == k)) [
      | inl e ↦
          let e' : i ≡ k = ground arith in
          new a (ap (has a) (sym (change_self levels i xs) ∙ ap (change levels i xs) e') ∙ m) ∙ e'
      | inr e ↦ v.placed k a l (ap (has a) (sym (change_ne levels i xs k e)) ∙ m)
    ]);
  }

  pub IsSorted-congr :
      (t u : Table) (qs ps : List ProcessQueue) (levels after : ℕ → List ℕ) (proc : ℕ)
      → IsSorted t qs levels
      → IsLevels 4 u ps after
      → SameButLinks t u
      → ((k : ℕ) → k < 4 → after k ≡ remove proc (levels k))
      → IsSorted u ps after
  IsSorted-congr t u qs ps levels after proc v w s e = record {
    held = w;
    placed = λ k a l m.
        ap level_of (same_priority t u s a)
        ∙ v.placed k a l (elim (Bool-cases (has a (levels k))) [
          | inl y ↦ y
          | inr n ↦ absurd (cc (ap (has a) (e k l), has-remove_out a proc (levels k) n))
        ]);
  }
