-- ===== src/Scheduler/Rr.antt =====
-- scheduler/rr.c: round robin. `rr_queue`, `rr_stats` and `rr_current_ticks` are the fields of `Rr`.
-- The tick handler is given the current process's pid and `scheduler_need_resched`, and returns
-- the flag with the state.
pub mod Quantum
use ares_os.Prelude.{ℕ, ◌+◌, ◌%◌, ◌^◌, Bool, true, false, Option, none, some, leb, if◌then◌else◌}
use ares_os.Process.Table.{Table, Ptr}
use ares_os.Process.Queue.{ProcessQueue, queue_init, queue_push, queue_pop, queue_remove, inc32}
use ares_os.Scheduler.Stats.{SchedulerStats, fresh_stats, inc64, is_busy, quantum_default}

pub record Rr : Type 0 where
  pub queue : ProcessQueue
  pub stats : SchedulerStats
  pub current_ticks : ℕ

unfoldable pub rr_init : Rr
rr_init = record { queue = queue_init; stats = fresh_stats "Round Robin"; current_ticks = 0 }

unfoldable pub rr_add : Table → Rr → ℕ → Table × Rr
rr_add t s proc = let (u, q) = queue_push t s.queue proc in (u, record s { queue = q })

unfoldable pub rr_remove : Table → Rr → ℕ → Option (Table × Rr)
rr_remove t s proc = elim (queue_remove 65 t s.queue proc) [
  | none ↦ none
  | some (u, q) ↦ some (u, record s { queue = q })
]

unfoldable pub rr_next : Table → Rr → Ptr × Table × Rr
rr_next t s =
    let (r, u, q) = queue_pop t s.queue in
    elim r [
      | none ↦ (none, u, record s { queue = q })
      | some p ↦ (
        some p,
        u,
        record {
          queue = q;
          stats = record (s.stats) { context_switches = inc64 s.stats.context_switches };
          current_ticks = 0;
        },
      )
    ]

unfoldable pub rr_tick : Option ℕ → Rr → Bool → Rr × Bool
rr_tick current s resched =
    let total = inc64 s.stats.total_ticks in
    if is_busy current
    then (
      record s {
        stats = record (s.stats) { total_ticks = total };
        current_ticks = inc32 s.current_ticks;
      },
      if leb quantum_default (inc32 s.current_ticks) then true else resched,
    )
    else (
      record s {
        stats = record (s.stats) { total_ticks = total; idle_ticks = inc64 s.stats.idle_ticks };
      },
      resched,
    )

unfoldable pub rr_get_stats : Rr → SchedulerStats × Rr
rr_get_stats s =
    let stats = record (s.stats) { queue_depth = s.queue.count } in
    (record stats { name = "Round Robin" }, record s { stats = stats })
