-- ===== src/Scheduler/Tests.antt =====
-- The theorems on the policies at concrete tables.
use ares_os.Prelude.{
  ℕ, ◌+◌, ◌%◌, ◌<◌, ◌≤◌, ◌≡◌, refl, false, none, some, List, [], ◌∷◌, arith, has, remove, min,
}
use ares_os.Process.Table.{Table, ready}
use ares_os.Process.Queue.{queue_init, queue_push, queue_pop}
use ares_os.Process.Queue.Fifo.{queue_init-IsQueue}
use ares_os.Scheduler.Levels.{change}
use ares_os.Scheduler.Fcfs.{fcfs_init}
use ares_os.Scheduler.Fcfs.Order.{add_all, next_all, fcfs_order}
use ares_os.Scheduler.Rr.{Rr, rr_init, rr_add, rr_next}
use ares_os.Scheduler.Rr.Quantum.{rr_ticks, rr_idle}
use ares_os.Scheduler.Priority.{Priority, prio_scan, prio_init, prio_add, prio_next}
use ares_os.Scheduler.Priority.Highest.{
  IsPriority, prio_init-IsPriority, prio_add-IsPriority, prio_next-le,
}
use ares_os.Scheduler.Mlq.{Mlq, mlq_scan, mlq_init, mlq_add, mlq_remove, mlq_next}
use ares_os.Scheduler.Mlq.Highest.{IsMlq, mlq_init-IsMlq, mlq_add-IsMlq, mlq_remove-IsMlq}
use ares_os.Scheduler.Dispatch.{
  Scheduler, sched_fcfs, sched_mlq, sched_count, scheduler_set, scheduler_next, scheduler_add,
}
use ares_os.Scheduler.Dispatch.Switch.{scheduler_set_drops}

-- process `p` has priority `p % 4`
abbrev table : Table
table p = record {
  pid = p + 1;
  state = ready;
  name = [];
  priority = p % 4;
  rsp = 0;
  rip = 0;
  rflags = 0;
  cr3 = 0;
  stack_base = 0;
  time_created = 0;
  total_ticks = 0;
  wake_tick = 0;
  next = none;
}

fcfs_order_example :
    let (u, s') = add_all table fcfs_init (9 ∷ 4 ∷ 7 ∷ []) in
    next_all 3 u s' ≡ some 9 ∷ some 4 ∷ some 7 ∷ []
unfolding fcfs_init
fcfs_order_example =
    fcfs_order table fcfs_init [] (9 ∷ 4 ∷ 7 ∷ []) (queue_init-IsQueue table)
      (refl, omega arith, (refl, omega arith, (refl, omega arith, tt)))

no_level : (a k : ℕ) → k < 4 → has a [] ≡ false
no_level a k l = refl

abbrev prio_one : Table × Priority
prio_one = prio_add table prio_init 7

abbrev level_one : ℕ → List ℕ
level_one = change (λ i. []) 3 (7 ∷ [])

prio_one-IsPriority : IsPriority prio_one.0 prio_one.1 level_one
prio_one-IsPriority =
    (prio_add-IsPriority table prio_init (λ i. []) 7 (prio_init-IsPriority table) (no_level 7)
      (omega arith)).0

prio_one_first : (prio_next prio_one.0 prio_one.1).0 ≡ some 7
unfolding prio_next prio_add prio_init prio_scan queue_push queue_pop queue_init
prio_one_first = refl

prio_next-le_example : min ((prio_one.0 7).priority) 3 ≤ min ((prio_one.0 7).priority) 3
unfolding change
prio_next-le_example =
    prio_next-le prio_one.0 prio_one.1 level_one 7 3 7 prio_one-IsPriority prio_one_first
      (omega arith) refl

abbrev queued : Table × Mlq
queued = mlq_add table mlq_init 6

-- priority 2 is level 1
abbrev mlq_level_one : ℕ → List ℕ
mlq_level_one = change (λ i. []) 1 (6 ∷ [])

queued-IsMlq : IsMlq queued.0 queued.1 mlq_level_one
queued-IsMlq =
    (mlq_add-IsMlq table mlq_init (λ i. []) 6 (mlq_init-IsMlq table) (no_level 6) (omega arith)).0

queued_first : (mlq_next queued.0 queued.1).0 ≡ some 6
unfolding mlq_next mlq_add mlq_init mlq_scan queue_push queue_pop queue_init
queued_first = refl

mlq_remove-IsMlq_example :
    (out : Table × Mlq) × (mlq_remove queued.0 queued.1 6 ≡ some out)
    × (after : ℕ → List ℕ) × IsMlq out.0 out.1 after
    × ((k : ℕ) → k < 4 → after k ≡ remove 6 (mlq_level_one k))
mlq_remove-IsMlq_example = mlq_remove-IsMlq queued.0 queued.1 mlq_level_one 6 queued-IsMlq

mlq_taken : (u : Table) × (s : Mlq) × (mlq_next queued.0 queued.1 ≡ (some 6, u, s))
unfolding mlq_next mlq_add mlq_init mlq_scan queue_push queue_pop queue_init
mlq_taken = ((mlq_next queued.0 queued.1).1, (mlq_next queued.0 queued.1).2, refl)

abbrev rr_one : Table × Rr
rr_one = rr_add table rr_init 6

rr_taken : (u : Table) × (s : Rr) × (rr_next rr_one.0 rr_one.1 ≡ (some 6, u, s))
unfolding rr_next rr_add rr_init queue_push queue_pop queue_init
rr_taken = ((rr_next rr_one.0 rr_one.1).1, (rr_next rr_one.0 rr_one.1).2, refl)

rr_idle_example :
    ((rr_ticks 9 (some 1) rr_init false).1 ≡ false)
    × ((rr_ticks 9 (some 1) rr_init false).0.current_ticks ≡ 0)
unfolding rr_init
rr_idle_example = rr_idle 9 (some 1) rr_init false refl

abbrev boot : Scheduler
boot = record {
  active = none;
  sched_id = sched_count;
  need_resched = false;
  fcfs = fcfs_init;
  rr = rr_init;
  priority = prio_init;
  mlq = mlq_init;
}

abbrev waiting : Table × Scheduler
waiting = scheduler_add table (scheduler_set sched_fcfs boot) 6

scheduler_set_drops_example :
    (scheduler_next waiting.0 (scheduler_set sched_mlq waiting.1)).0 ≡ none
scheduler_set_drops_example = scheduler_set_drops sched_mlq waiting.0 waiting.1 (λ e. cc)
