-- ===== src/Scheduler/Levels.antt =====
-- An array of queues over one table: what each level holds, and operations at one level.
use ares_os.Prelude.{
  ℕ, ◌<◌, ◌≡◌, ◌≢◌, ◌∙◌, sym, ap, true, false, none, some, List, [], ◌∷◌, ◌++◌, arith, ◌==◌,
  if◌then◌else◌, length, length-set, get_or, set, get_or-set_self, get_or-set_ne, has, has-append,
  has-remove_out, remove, inl, inr, Bool-cases,
}
use mathlib.Core.Path.{subst}
use ares_os.Process.Table.{Table, max_processes, SameButLinks}
use ares_os.Process.Queue.{ProcessQueue, queue_init, queue_push, queue_pop, queue_remove}
use ares_os.Process.Queue.Rep.{IsQueue, IsQueue-frame}
use ares_os.Process.Queue.Fifo.{queue_push-append, queue_pop-cons, queue_pop-nil, has-ne}
use ares_os.Process.Queue.Walk.{queue_remove-remove}

-- `queues[i]`
abbrev pub queue_at : List ProcessQueue → ℕ → ProcessQueue
queue_at qs i = get_or qs i queue_init

-- Level `i` holds `levels i`, and no process is in two levels.
pub record IsLevels (n : ℕ) (t : Table) (qs : List ProcessQueue) (levels : ℕ → List ℕ)
    : Type 0 where
  pub size : length qs ≡ n
  pub queues : (i : ℕ) → i < n → IsQueue t (queue_at qs i) (levels i)
  pub apart :
      (i j a : ℕ)
      → i < n
      → j < n
      → (i == j) ≡ false
      → has a (levels i) ≡ true
      → has a (levels j) ≡ false

-- The levels with level `i` changed.
unfoldable pub change : (ℕ → List ℕ) → ℕ → List ℕ → ℕ → List ℕ
change levels i xs k = if i == k then xs else levels k

pub change_self : (levels : ℕ → List ℕ) (i : ℕ) (xs : List ℕ) → change levels i xs i ≡ xs
unfolding change
change_self levels i xs = ground arith

pub change_ne :
    (levels : ℕ → List ℕ) (i : ℕ) (xs : List ℕ) (k : ℕ)
    → (i == k) ≡ false
    → change levels i xs k ≡ levels k
unfolding change
change_ne levels i xs k e = rw e

module _ (n : ℕ) (t u : Table) (qs : List ProcessQueue) (levels : ℕ → List ℕ) (i : ℕ) where
  -- One queue is replaced: the others keep what they hold if their links were spared and if
  -- what is new in level `i` is in no other.
  pub IsLevels-change :
      (q : ProcessQueue) (xs : List ℕ)
      → IsLevels n t qs levels
      → i < n
      → IsQueue u q xs
      → ((k a : ℕ) → k < n → (i == k) ≡ false → has a (levels k) ≡ true → (u a).next ≡ (t a).next)
      → ((k a : ℕ) → k < n → (i == k) ≡ false → has a (levels k) ≡ true → has a xs ≡ false)
      → IsLevels n u (set qs i q) (change levels i xs)
  IsLevels-change q xs v h w spare new = record {
    size = length-set qs i q ∙ v.size;
    queues = queue;
    apart = split;
  }
    where
      inside : i < length qs
      inside = omega (arith, v.size)

      queue : (k : ℕ) → k < n → IsQueue u (queue_at (set qs i q) k) (change levels i xs k)
      queue k l = elim (Bool-cases (i == k)) [
        | inl e ↦
            let e' : i ≡ k = ground arith in
            subst (λ j. IsQueue u (queue_at (set qs i q) j) (change levels i xs j)) e'
              (rw (get_or-set_self qs i q queue_init inside, change_self levels i xs) w)
        | inr e ↦
            let e' : i ≢ k = ground arith in
            rw (get_or-set_ne qs q queue_init e', change_ne levels i xs k e)
              (IsQueue-frame t u (queue_at qs k) (levels k) (λ a m. spare k a l e m) (v.queues k l))
      ]

      split :
          (j k a : ℕ)
          → j < n
          → k < n
          → (j == k) ≡ false
          → has a (change levels i xs j) ≡ true
          → has a (change levels i xs k) ≡ false
      split j k a lj lk d m = elim (Bool-cases (i == j)) [
        | inl e ↦
            let e' : i ≡ j = ground arith in
            let other : (i == k) ≡ false = ground arith in
            let m' : has a xs ≡ true =
              ap (has a) (sym (change_self levels i xs) ∙ ap (change levels i xs) e') ∙ m in
            ap (has a) (change_ne levels i xs k other) ∙ (elim (Bool-cases (has a (levels k))) [
              | inl p ↦ absurd (cc (new k a lk other p))
              | inr p ↦ p
            ])
        | inr e ↦ elim (Bool-cases (i == k)) [
          | inl f ↦
              let f' : i ≡ k = ground arith in
              ap (has a) (ap (change levels i xs) (sym f') ∙ change_self levels i xs)
              ∙ new j a lj e (ap (has a) (sym (change_ne levels i xs j e)) ∙ m)
          | inr f ↦
              ap (has a) (change_ne levels i xs k f)
              ∙ v.apart j k a lj lk d (ap (has a) (sym (change_ne levels i xs j e)) ∙ m)
        ]
      ]

module _ (n : ℕ) (t : Table) (qs : List ProcessQueue) (levels : ℕ → List ℕ) (i : ℕ) where
  -- A process that is in no level is pushed at level `i`.
  pub push-IsLevels :
      (proc : ℕ)
      → IsLevels n t qs levels
      → i < n
      → ((k : ℕ) → k < n → has proc (levels k) ≡ false)
      → proc < max_processes
      → let (u, q) = queue_push t (queue_at qs i) proc in
        IsLevels n u (set qs i q) (change levels i (levels i ++ (proc ∷ []))) × SameButLinks t u
  push-IsLevels proc v h out b =
      let (w, same, spare) =
        queue_push-append t (queue_at qs i) (levels i) proc (v.queues i h) (out i h) b in
      let (u, q) = queue_push t (queue_at qs i) proc in
      let away : (k a : ℕ)
          → k < n
          → (i == k) ≡ false
          → has a (levels k) ≡ true
          → has a (proc ∷ levels i) ≡ false =
        λ k a l e m.
          let f = has-ne a proc (levels k) m (out k l) in
          let d : (k == i) ≡ false = ground arith in
          let g = v.apart k i a l h d m in ground arith in
      (
        IsLevels-change n t u qs levels i q (levels i ++ (proc ∷ [])) v h w
            (λ k a l e m. spare a (away k a l e m))
            (λ k a l e m.
              let f = away k a l e m in ground (arith, has-append a (levels i) (proc ∷ []))),
        same,
      )

  -- The front of level `i` is popped.
  pub pop-IsLevels :
      (x : ℕ) (xs : List ℕ)
      → IsLevels n t qs levels
      → i < n
      → levels i ≡ x ∷ xs
      → let (r, u, q) = queue_pop t (queue_at qs i) in
        (r ≡ some x) × IsLevels n u (set qs i q) (change levels i xs) × SameButLinks t u
  pop-IsLevels x xs v h e =
      let w : IsQueue t (queue_at qs i) (x ∷ xs) =
        subst (IsQueue t (queue_at qs i)) e (v.queues i h) in
      let (r, w', same, spare) = queue_pop-cons t (queue_at qs i) x xs w in
      let (r', u, q) = queue_pop t (queue_at qs i) in
      let away : (k a : ℕ)
          → k < n
          → (i == k) ≡ false
          → has a (levels k) ≡ true
          → has a (x ∷ xs) ≡ false =
        λ k a l f m.
          let d : (k == i) ≡ false = ground arith in ap (has a) (sym e) ∙ v.apart k i a l h d m in
      (
        r,
        IsLevels-change n t u qs levels i q xs v h w'
            (λ k a l f m. spare a (let g = away k a l f m in ground arith))
            (λ k a l f m. let g = away k a l f m in ground arith),
        same,
      )

  -- An empty level yields nothing and is left alone.
  pub pop-empty :
      IsLevels n t qs levels
      → i < n
      → levels i ≡ []
      → queue_pop t (queue_at qs i) ≡ (none, t, queue_at qs i)
  pop-empty v h e =
      queue_pop-nil t (queue_at qs i) (subst (IsQueue t (queue_at qs i)) e (v.queues i h))

  -- A process is taken out of level `i`.
  pub remove-IsLevels :
      (proc : ℕ)
      → IsLevels n t qs levels
      → i < n
      → (out : Table × ProcessQueue) × (queue_remove 65 t (queue_at qs i) proc ≡ some out)
        × IsLevels n out.0 (set qs i out.1) (change levels i (remove proc (levels i)))
        × SameButLinks t out.0
  remove-IsLevels proc v h =
      let (out, e, (w, same, spare)) =
        queue_remove-remove t (queue_at qs i) proc (levels i) (v.queues i h) in
      let away : (k a : ℕ)
          → k < n
          → (i == k) ≡ false
          → has a (levels k) ≡ true
          → has a (levels i) ≡ false =
        λ k a l f m. let d : (k == i) ≡ false = ground arith in v.apart k i a l h d m in
      (
        out,
        e,
        IsLevels-change n t out.0 qs levels i out.1 (remove proc (levels i)) v h w
            (λ k a l f m. spare a (away k a l f m))
            (λ k a l f m. has-remove_out a proc (levels i) (away k a l f m)),
        same,
      )
