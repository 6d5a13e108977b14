-- ===== src/Scheduler/Dispatch/Fifo.antt =====
-- What the process manager uses of the dispatcher: under the first-come and the round-robin policy
-- the processes that wait are a FIFO list.
use mathlib.Core.Path.{subst, subst₂, sym}
use ares_os.Prelude.{
  ℕ, ◌<◌, ◌≡◌, true, false, some, List, [], ◌∷◌, ◌++◌, arith, ◌⊎◌, inl, inr, has, remove, Distinct,
  Below,
}
use ares_os.Process.Table.{Table, Ptr, max_processes, SameButLinks}
use ares_os.Process.Queue.{ProcessQueue, queue_push, queue_pop, queue_remove}
use ares_os.Process.Queue.Rep.{IsQueue, IsQueue-frame}
use ares_os.Process.Queue.Fifo.{queue_push-append, queue_pop-cons}
use ares_os.Process.Queue.Walk.{queue_remove-remove}
use ares_os.Scheduler.Fcfs.{fcfs_add, fcfs_remove, fcfs_next}
use ares_os.Scheduler.Rr.{rr_add, rr_remove, rr_next}
use ares_os.Scheduler.Dispatch.{
  Scheduler, fcfs_ops, rr_ops, scheduler_add, scheduler_remove, scheduler_next,
}

-- The active policy is one of the two, and its queue holds `xs`.
abbrev pub IsFifo : Table → Scheduler → List ℕ → Type 0
IsFifo t s xs =
    ((s.active ≡ some fcfs_ops) × IsQueue t s.fcfs.queue xs)
    ⊎ ((s.active ≡ some rr_ops) × IsQueue t s.rr.queue xs)

pub IsFifo-frame :
    (t u : Table) (s : Scheduler) (xs : List ℕ)
    → ((a : ℕ) → has a xs ≡ true → (u a).next ≡ (t a).next)
    → IsFifo t s xs
    → IsFifo u s xs
IsFifo-frame t u s xs same (inl (e, v)) = inl (e, IsQueue-frame t u s.fcfs.queue xs same v)
IsFifo-frame t u s xs same (inr (e, v)) = inr (e, IsQueue-frame t u s.rr.queue xs same v)

pub IsFifo-Distinct : (t : Table) (s : Scheduler) (xs : List ℕ) → IsFifo t s xs → Distinct xs
IsFifo-Distinct t s xs (inl (e, v)) = v.distinct
IsFifo-Distinct t s xs (inr (e, v)) = v.distinct

pub IsFifo-entries :
    (t : Table) (s : Scheduler) (xs : List ℕ) → IsFifo t s xs → Below max_processes xs
IsFifo-entries t s xs (inl (e, v)) = v.entries
IsFifo-entries t s xs (inr (e, v)) = v.entries

module _ (t : Table) (s : Scheduler) (proc : ℕ) where
  add_fcfs :
      s.active ≡ some fcfs_ops
      → scheduler_add t s proc ≡ (
        (queue_push t s.fcfs.queue proc).0,
        record s { fcfs = record (s.fcfs) { queue = (queue_push t s.fcfs.queue proc).1 } },
      )
  unfolding scheduler_add fcfs_add
  add_fcfs e = ground arith

  add_rr :
      s.active ≡ some rr_ops
      → scheduler_add t s proc ≡ (
        (queue_push t s.rr.queue proc).0,
        record s { rr = record (s.rr) { queue = (queue_push t s.rr.queue proc).1 } },
      )
  unfolding scheduler_add rr_add
  add_rr e = ground arith

-- `scheduler_add` appends.
pub scheduler_add-append :
    (t : Table) (s : Scheduler) (xs : List ℕ) (proc : ℕ)
    → IsFifo t s xs
    → has proc xs ≡ false
    → proc < max_processes
    → let (u, s') = scheduler_add t s proc in IsFifo u s' (xs ++ (proc ∷ [])) × SameButLinks t u
scheduler_add-append t s xs proc (inl (e, v)) out b =
    let (w, same, spare) = queue_push-append t s.fcfs.queue xs proc v out b in
    subst (λ r. IsFifo r.0 r.1 (xs ++ (proc ∷ [])) × SameButLinks t r.0) (sym (add_fcfs t s proc e))
      (inl (e, w), same)
scheduler_add-append t s xs proc (inr (e, v)) out b =
    let (w, same, spare) = queue_push-append t s.rr.queue xs proc v out b in
    subst (λ r. IsFifo r.0 r.1 (xs ++ (proc ∷ [])) × SameButLinks t r.0) (sym (add_rr t s proc e))
      (inr (e, w), same)

module _ (t : Table) (s : Scheduler) where
  next_fcfs :
      s.active ≡ some fcfs_ops
      → scheduler_next t s ≡ (
        (fcfs_next t s.fcfs).0,
        (fcfs_next t s.fcfs).1,
        record s { fcfs = (fcfs_next t s.fcfs).2 },
      )
  unfolding scheduler_next
  next_fcfs e = ground arith

  next_rr :
      s.active ≡ some rr_ops
      → scheduler_next t s
        ≡ ((rr_next t s.rr).0, (rr_next t s.rr).1, record s { rr = (rr_next t s.rr).2 })
  unfolding scheduler_next
  next_rr e = ground arith

  rr_next_pop :
      (x : ℕ)
      → (queue_pop t s.rr.queue).0 ≡ some x
      → ((rr_next t s.rr).0 ≡ some x)
        × ((rr_next t s.rr).1 ≡ (queue_pop t s.rr.queue).1)
        × ((rr_next t s.rr).2.queue ≡ (queue_pop t s.rr.queue).2)
  unfolding rr_next
  rr_next_pop x e = ground arith

-- What taking the front leaves.
abbrev pub Front : Table → ℕ → List ℕ → Ptr × Table × Scheduler → Type 0
Front t x xs (r, u, s) = (r ≡ some x) × IsFifo u s xs × SameButLinks t u

-- `scheduler_next` takes the front.
pub scheduler_next-Front :
    (t : Table) (s : Scheduler) (x : ℕ) (xs : List ℕ)
    → IsFifo t s (x ∷ xs)
    → Front t x xs (scheduler_next t s)
unfolding fcfs_next
scheduler_next-Front t s x xs (inl (e, v)) =
    let (r, w, same, spare) = queue_pop-cons t s.fcfs.queue x xs v in
    subst (Front t x xs) (sym (next_fcfs t s e)) (r, inl (e, w), same)
scheduler_next-Front t s x xs (inr (e, v)) =
    let (r, w, same, spare) = queue_pop-cons t s.rr.queue x xs v in
    let (i, j, k) = rr_next_pop t s x r in
    subst (Front t x xs) (sym (next_rr t s e)) (
      i,
      inr (e, subst₂ (λ u q. IsQueue u q xs) (sym j) (sym k) w),
      subst (SameButLinks t) (sym j) same,
    )

-- What taking out a process that may be anywhere leaves.
abbrev pub Without : Table → ℕ → List ℕ → Table × Scheduler → Type 0
Without t proc xs (u, s) = IsFifo u s (remove proc xs) × SameButLinks t u

module _ (t : Table) (s : Scheduler) (proc : ℕ) (out : Table × ProcessQueue) where
  remove_fcfs :
      s.active ≡ some fcfs_ops
      → queue_remove 65 t s.fcfs.queue proc ≡ some out
      → scheduler_remove t s proc
        ≡ some (out.0, record s { fcfs = record (s.fcfs) { queue = out.1 } })
  unfolding scheduler_remove fcfs_remove
  remove_fcfs e r = ground arith

  remove_rr :
      s.active ≡ some rr_ops
      → queue_remove 65 t s.rr.queue proc ≡ some out
      → scheduler_remove t s proc ≡ some (out.0, record s { rr = record (s.rr) { queue = out.1 } })
  unfolding scheduler_remove rr_remove
  remove_rr e r = ground arith

-- `scheduler_remove` takes the process out and ends.
pub scheduler_remove-remove :
    (t : Table) (s : Scheduler) (xs : List ℕ) (proc : ℕ)
    → IsFifo t s xs
    → (out : Table × Scheduler) × (scheduler_remove t s proc ≡ some out) × Without t proc xs out
scheduler_remove-remove t s xs proc (inl (e, v)) =
    let (out, r, (w, same, spare)) = queue_remove-remove t s.fcfs.queue proc xs v in
    (
      (out.0, record s { fcfs = record (s.fcfs) { queue = out.1 } }),
      remove_fcfs t s proc out e r,
      (inl (e, w), same),
    )
scheduler_remove-remove t s xs proc (inr (e, v)) =
    let (out, r, (w, same, spare)) = queue_remove-remove t s.rr.queue proc xs v in
    (
      (out.0, record s { rr = record (s.rr) { queue = out.1 } }),
      remove_rr t s proc out e r,
      (inr (e, w), same),
    )
