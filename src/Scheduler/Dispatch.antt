-- ===== src/Scheduler/Dispatch.antt =====
-- scheduler/scheduler.c: the dispatcher. `g_scheduler` is the active policy or `none`, and the
-- static state of each policy is a field.
pub mod Switch
pub mod Fifo
use ares_os.Prelude.{
  ℕ, ◌≡◌, refl, Bool, true, false, Option, none, some, List, [], ◌∷◌, arith, set, replicate, get_or,
}
use Prim.Native.String.{String}
use ares_os.Process.Table.{Table, Ptr, Pcb}
use ares_os.Process.Queue.{queue_init, queue_pop}
use ares_os.Process.Queue.Fifo.{queue_init-IsQueue, queue_pop-nil}
use ares_os.Scheduler.Stats.{SchedulerStats}
use ares_os.Scheduler.Fcfs.{
  Fcfs, fcfs_init, fcfs_add, fcfs_remove, fcfs_next, fcfs_get_stats, count_switch,
}
use ares_os.Scheduler.Rr.{Rr, rr_init, rr_add, rr_remove, rr_next, rr_tick, rr_get_stats}
use ares_os.Scheduler.Priority.{
  Priority, prio_init, prio_add, prio_remove, prio_next, prio_tick, prio_get_stats,
}
use ares_os.Scheduler.Mlq.{Mlq, mlq_init, mlq_add, mlq_remove, mlq_next, mlq_tick, mlq_get_stats}

pub data SchedulerId : Type 0 where
  sched_fcfs sched_rr sched_priority sched_mlq sched_count : SchedulerId

-- Which table of operations `g_scheduler` points to.
pub data Policy : Type 0 where
  fcfs_ops rr_ops priority_ops mlq_ops : Policy

pub record Scheduler : Type 0 where
  pub active : Option Policy
  pub sched_id : SchedulerId
  pub need_resched : Bool
  pub fcfs : Fcfs
  pub rr : Rr
  pub priority : Priority
  pub mlq : Mlq

-- Any other number is treated as `SCHED_COUNT`: only `g_sched_id` is written.
unfoldable pub scheduler_set : SchedulerId → Scheduler → Scheduler
scheduler_set sched_fcfs s = record s {
  active = some fcfs_ops;
  sched_id = sched_fcfs;
  fcfs = fcfs_init;
}
scheduler_set sched_rr s = record s { active = some rr_ops; sched_id = sched_rr; rr = rr_init }
scheduler_set sched_priority s = record s {
  active = some priority_ops;
  sched_id = sched_priority;
  priority = prio_init;
}
scheduler_set sched_mlq s = record s { active = some mlq_ops; sched_id = sched_mlq; mlq = mlq_init }
scheduler_set sched_count s = record s { sched_id = sched_count }

unfoldable pub scheduler_add : Table → Scheduler → ℕ → Table × Scheduler
scheduler_add t s proc = elim s.active [
  | none ↦ (t, s)
  | some fcfs_ops ↦ let (u, p) = fcfs_add t s.fcfs proc in (u, record s { fcfs = p })
  | some rr_ops ↦ let (u, p) = rr_add t s.rr proc in (u, record s { rr = p })
  | some priority_ops ↦ let (u, p) = prio_add t s.priority proc in (u, record s { priority = p })
  | some mlq_ops ↦ let (u, p) = mlq_add t s.mlq proc in (u, record s { mlq = p })
]

-- `none` means that a walk over the links ran out of fuel.
unfoldable pub scheduler_remove : Table → Scheduler → ℕ → Option (Table × Scheduler)
scheduler_remove t s proc = elim s.active [
  | none ↦ some (t, s)
  | some fcfs_ops ↦ elim (fcfs_remove t s.fcfs proc) [
    | none ↦ none
    | some (u, p) ↦ some (u, record s { fcfs = p })
  ]
  | some rr_ops ↦ elim (rr_remove t s.rr proc) [
    | none ↦ none
    | some (u, p) ↦ some (u, record s { rr = p })
  ]
  | some priority_ops ↦ elim (prio_remove t s.priority proc) [
    | none ↦ none
    | some (u, p) ↦ some (u, record s { priority = p })
  ]
  | some mlq_ops ↦ elim (mlq_remove t s.mlq proc) [
    | none ↦ none
    | some (u, p) ↦ some (u, record s { mlq = p })
  ]
]

unfoldable pub scheduler_next : Table → Scheduler → Ptr × Table × Scheduler
scheduler_next t s = elim s.active [
  | none ↦ (none, t, s)
  | some fcfs_ops ↦ let (r, u, p) = fcfs_next t s.fcfs in (r, u, record s { fcfs = p })
  | some rr_ops ↦ let (r, u, p) = rr_next t s.rr in (r, u, record s { rr = p })
  | some priority_ops ↦ let (r, u, p) = prio_next t s.priority in (r, u, record s { priority = p })
  | some mlq_ops ↦ let (r, u, p) = mlq_next t s.mlq in (r, u, record s { mlq = p })
]

-- The current process, if there is one, by its control block. FCFS has no tick handler.
unfoldable pub scheduler_tick : Option Pcb → Scheduler → Scheduler
scheduler_tick current s =
    let pid : Option ℕ = elim current [ none ↦ none | some c ↦ some (c.pid) ] in
    let pid_priority : Option (ℕ × ℕ) = elim current [
      | none ↦ none
      | some c ↦ some (c.pid, c.priority)
    ] in
    elim s.active [
      | none ↦ s
      | some fcfs_ops ↦ s
      | some rr_ops ↦
          let (p, r) = rr_tick pid s.rr s.need_resched in record s { rr = p; need_resched = r }
      | some priority_ops ↦
          let (p, r) = prio_tick pid s.priority s.need_resched in
          record s { priority = p; need_resched = r }
      | some mlq_ops ↦
          let (p, r) = mlq_tick pid_priority s.mlq s.need_resched in
          record s { mlq = p; need_resched = r }
    ]

unfoldable pub scheduler_get_current : Scheduler → SchedulerId
scheduler_get_current s = s.sched_id

-- `none` where `*stats` is not written.
unfoldable pub scheduler_get_stats : Scheduler → Option SchedulerStats × Scheduler
scheduler_get_stats s = elim s.active [
  | none ↦ (none, s)
  | some fcfs_ops ↦ let (stats, p) = fcfs_get_stats s.fcfs in (some stats, record s { fcfs = p })
  | some rr_ops ↦ let (stats, p) = rr_get_stats s.rr in (some stats, record s { rr = p })
  | some priority_ops ↦
      let (stats, p) = prio_get_stats s.priority in (some stats, record s { priority = p })
  | some mlq_ops ↦ let (stats, p) = mlq_get_stats s.mlq in (some stats, record s { mlq = p })
]

pub scheduler_name : SchedulerId → String
scheduler_name sched_fcfs = "FCFS"
scheduler_name sched_rr = "Round Robin"
scheduler_name sched_priority = "Priority"
scheduler_name sched_mlq = "MLQ"
scheduler_name sched_count = "Unknown"
