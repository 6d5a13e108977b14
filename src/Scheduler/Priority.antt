-- ===== src/Scheduler/Priority.antt =====
-- scheduler/priority.c: four queues, one for each priority; the highest that is not empty is served.
-- The static variables are the fields of `Priority`.
pub mod Highest
use ares_os.Prelude.{
  ℕ, zero, suc, ◌+◌, ◌%◌, ◌^◌, Bool, true, false, Option, none, some, List, [], ◌∷◌, leb,
  if◌then◌else◌, replicate, set,
}
use ares_os.Process.Table.{Table, Ptr}
use ares_os.Process.Queue.{ProcessQueue, queue_init, queue_push, queue_pop, inc32}
use ares_os.Scheduler.Stats.{SchedulerStats, fresh_stats, inc64, is_busy, quantum_default}
use ares_os.Scheduler.Levels.{queue_at}
use ares_os.Scheduler.Sorted.{remove_first, sum_counts}

abbrev pub prio_queues : ℕ
prio_queues = 4

pub record Priority : Type 0 where
  pub queues : List ProcessQueue
  pub stats : SchedulerStats
  pub current_ticks : ℕ

unfoldable pub prio_init : Priority
prio_init = record {
  queues = replicate prio_queues queue_init;
  stats = fresh_stats "Priority";
  current_ticks = 0;
}

-- `if (level >= PRIO_QUEUES) level = PRIO_QUEUES - 1`
abbrev pub prio_level : ℕ → ℕ
prio_level priority = if leb prio_queues priority then 3 else priority

unfoldable pub prio_add : Table → Priority → ℕ → Table × Priority
prio_add t s proc =
    let level = prio_level ((t proc).priority) in
    let (u, q) = queue_push t (queue_at s.queues level) proc in
    (u, record s { queues = set s.queues level q })

unfoldable pub prio_remove : Table → Priority → ℕ → Option (Table × Priority)
prio_remove t s proc = elim (remove_first prio_queues 0 t s.queues proc) [
  | none ↦ none
  | some (u, qs) ↦ some (u, record s { queues = qs })
]

-- `for (i = PRIO_QUEUES - 1; i >= 0; i--)`, where `suc i` says that level `i` is next
unfoldable pub prio_scan : ℕ → Table → Priority → Ptr × Table × Priority
prio_scan zero t s = (none, t, s)
prio_scan (suc i) t s =
    let (r, u, q) = queue_pop t (queue_at s.queues i) in
    let queues = set s.queues i q in
    elim r [
      | none ↦ prio_scan i u (record s { queues = queues })
      | some p ↦ (
        some p,
        u,
        record {
          queues = queues;
          stats = record (s.stats) { context_switches = inc64 s.stats.context_switches };
          current_ticks = 0;
        },
      )
    ]

unfoldable pub prio_next : Table → Priority → Ptr × Table × Priority
unfolding prio_scan
prio_next t s = prio_scan prio_queues t s

unfoldable pub prio_tick : Option ℕ → Priority → Bool → Priority × Bool
prio_tick current s resched =
    let total = inc64 s.stats.total_ticks in
    if is_busy current
    then (
      record s {
        stats = record (s.stats) { total_ticks = total };
        current_ticks = inc32 s.current_ticks;
      },
      if leb quantum_default (inc32 s.current_ticks) then true else resched,
    )
    else (
      record s {
        stats = record (s.stats) { total_ticks = total; idle_ticks = inc64 s.stats.idle_ticks };
      },
      resched,
    )

unfoldable pub prio_get_stats : Priority → SchedulerStats × Priority
unfolding sum_counts
prio_get_stats s =
    let stats = record (s.stats) { queue_depth = sum_counts s.queues 0 } in
    (record stats { name = "Priority" }, record s { stats = stats })
