-- ===== src/Scheduler/Fcfs.antt =====
-- scheduler/fcfs.c: first come, first served. The static `fcfs_queue` and `fcfs_stats` are the
-- fields of `Fcfs`.
pub mod Order
use ares_os.Prelude.{ℕ, ◌+◌, ◌%◌, ◌^◌, Option, none, some}
use ares_os.Process.Table.{Table, Ptr}
use ares_os.Process.Queue.{ProcessQueue, queue_init, queue_push, queue_pop, queue_remove}
use ares_os.Scheduler.Stats.{SchedulerStats, fresh_stats, inc64}

pub record Fcfs : Type 0 where
  pub queue : ProcessQueue
  pub stats : SchedulerStats

unfoldable pub fcfs_init : Fcfs
fcfs_init = record { queue = queue_init; stats = fresh_stats "FCFS" }

unfoldable pub fcfs_add : Table → Fcfs → ℕ → Table × Fcfs
fcfs_add t s proc = let (u, q) = queue_push t s.queue proc in (u, record s { queue = q })

unfoldable pub fcfs_remove : Table → Fcfs → ℕ → Option (Table × Fcfs)
fcfs_remove t s proc = elim (queue_remove 65 t s.queue proc) [
  | none ↦ none
  | some (u, q) ↦ some (u, record s { queue = q })
]

-- `if (next) fcfs_stats.context_switches++`
pub count_switch : Ptr → SchedulerStats → SchedulerStats
count_switch none stats = stats
count_switch (some _) stats = record stats { context_switches = inc64 stats.context_switches }

unfoldable pub fcfs_next : Table → Fcfs → Ptr × Table × Fcfs
unfolding count_switch
fcfs_next t s =
    let (r, u, q) = queue_pop t s.queue in
    (r, u, record { queue = q; stats = count_switch r s.stats })

unfoldable pub fcfs_get_stats : Fcfs → SchedulerStats × Fcfs
fcfs_get_stats s =
    let stats = record (s.stats) { queue_depth = s.queue.count } in
    (record stats { name = "FCFS" }, record s { stats = stats })
