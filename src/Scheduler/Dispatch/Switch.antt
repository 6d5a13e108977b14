-- ===== src/Scheduler/Dispatch/Switch.antt =====
-- What a change of policy does to the processes that wait.
use ares_os.Prelude.{◌≡◌, refl, ◌≢◌, ap, none, arith, [], inl, inr}
use ares_os.Process.Table.{Table}
use ares_os.Process.Queue.{queue_init, queue_pop}
use ares_os.Process.Queue.Fifo.{queue_init-IsQueue, queue_pop-nil}
use ares_os.Scheduler.Fcfs.{fcfs_init, fcfs_next}
use ares_os.Scheduler.Rr.{rr_init, rr_next}
use ares_os.Scheduler.Priority.{prio_init, prio_next}
use ares_os.Scheduler.Priority.Highest.{prio_init-IsPriority, prio_next-highest}
use ares_os.Scheduler.Mlq.{mlq_init, mlq_next}
use ares_os.Scheduler.Mlq.Highest.{mlq_init-IsMlq, mlq_next-first}
use ares_os.Scheduler.Dispatch.{
  Scheduler, SchedulerId, sched_fcfs, sched_rr, sched_priority, sched_mlq, sched_count,
  scheduler_set, scheduler_next,
}

pop_init : (t : Table) → queue_pop t queue_init ≡ (none, t, queue_init)
pop_init t = queue_pop-nil t queue_init (queue_init-IsQueue t)

fcfs_init_empty : (t : Table) → (fcfs_next t fcfs_init).0 ≡ none
unfolding fcfs_next fcfs_init
fcfs_init_empty t = ground (arith, pop_init t)

rr_init_empty : (t : Table) → (rr_next t rr_init).0 ≡ none
unfolding rr_next rr_init
rr_init_empty t = ground (arith, pop_init t)

prio_init_empty : (t : Table) → (prio_next t prio_init).0 ≡ none
prio_init_empty t = elim (prio_next-highest t prio_init (λ i. []) (prio_init-IsPriority t)) [
  | inl (empty, e) ↦ ap (λ r. r.0) e
  | inr (k, x, xs, l, f, a, b, c) ↦ absurd (cc)
]

mlq_init_empty : (t : Table) → (mlq_next t mlq_init).0 ≡ none
mlq_init_empty t = elim (mlq_next-first t mlq_init (λ i. []) (mlq_init-IsMlq t)) [
  | inl (empty, e) ↦ ap (λ r. r.0) e
  | inr (k, x, xs, l, f, a, b, c) ↦ absurd (cc)
]

-- Setting a policy, be it the active one, drops every process that waits in it: the next call of
-- `scheduler_next` returns NULL, whatever was queued before.
pub scheduler_set_drops :
    (id : SchedulerId) (t : Table) (s : Scheduler)
    → id ≢ sched_count
    → (scheduler_next t (scheduler_set id s)).0 ≡ none
unfolding scheduler_set scheduler_next
scheduler_set_drops sched_fcfs t s h = fcfs_init_empty t
scheduler_set_drops sched_rr t s h = rr_init_empty t
scheduler_set_drops sched_priority t s h = prio_init_empty t
scheduler_set_drops sched_mlq t s h = mlq_init_empty t
scheduler_set_drops sched_count t s h = absurd (h refl)
