-- ===== src/Scheduler/Mlq.antt =====
-- scheduler/mlq.c: the multi-level queue, level 0 first, with a quantum for each level. The static
-- variables are the fields of `Mlq`.
pub mod Highest
pub mod Quantum
use ares_os.Prelude.{
  ℕ, zero, suc, ◌+◌, ◌%◌, ◌^◌, Bool, true, false, Option, none, some, List, [], ◌∷◌, leb,
  if◌then◌else◌, replicate, set, get_or,
}
use ares_os.Process.Table.{Table, Ptr}
use ares_os.Process.Queue.{ProcessQueue, queue_init, queue_push, queue_pop, inc32}
use ares_os.Scheduler.Stats.{SchedulerStats, fresh_stats, inc64}
use ares_os.Scheduler.Levels.{queue_at}
use ares_os.Scheduler.Sorted.{remove_first, sum_counts}

abbrev pub mlq_levels : ℕ
mlq_levels = 4

abbrev pub mlq_quanta : List ℕ
mlq_quanta = 2 ∷ 4 ∷ 6 ∷ 8 ∷ []

pub record Mlq : Type 0 where
  pub queues : List ProcessQueue
  pub stats : SchedulerStats
  pub level_ticks : List ℕ

abbrev pub mlq_level_of : ℕ → ℕ
mlq_level_of priority =
    if leb 3 priority then 0 else if leb 2 priority then 1 else if leb 1 priority then 2 else 3

unfoldable pub mlq_init : Mlq
mlq_init = record {
  queues = replicate mlq_levels queue_init;
  stats = fresh_stats "MLQ";
  level_ticks = replicate mlq_levels 0;
}

unfoldable pub mlq_add : Table → Mlq → ℕ → Table × Mlq
mlq_add t s proc =
    let level = mlq_level_of ((t proc).priority) in
    let (u, q) = queue_push t (queue_at s.queues level) proc in
    (u, record s { queues = set s.queues level q })

unfoldable pub mlq_remove : Table → Mlq → ℕ → Option (Table × Mlq)
mlq_remove t s proc = elim (remove_first mlq_levels 0 t s.queues proc) [
  | none ↦ none
  | some (u, qs) ↦ some (u, record s { queues = qs })
]

-- `for (i = 0; i < MLQ_LEVELS; i++)`, with the rounds left
unfoldable pub mlq_scan : ℕ → ℕ → Table → Mlq → Ptr × Table × Mlq
mlq_scan zero i t s = (none, t, s)
mlq_scan (suc n) i t s =
    let (r, u, q) = queue_pop t (queue_at s.queues i) in
    let queues = set s.queues i q in
    elim r [
      | none ↦ mlq_scan n (i + 1) u (record s { queues = queues })
      | some p ↦ (
        some p,
        u,
        record {
          queues = queues;
          stats = record (s.stats) { context_switches = inc64 s.stats.context_switches };
          level_ticks = replicate mlq_levels 0;
        },
      )
    ]

unfoldable pub mlq_next : Table → Mlq → Ptr × Table × Mlq
unfolding mlq_scan
mlq_next t s = mlq_scan mlq_levels 0 t s

-- The current process is given by its pid and its priority.
unfoldable pub mlq_tick : Option (ℕ × ℕ) → Mlq → Bool → Mlq × Bool
mlq_tick current s resched =
    let total = inc64 s.stats.total_ticks in
    let idle : Mlq × Bool = (
      record s {
        stats = record (s.stats) { total_ticks = total; idle_ticks = inc64 s.stats.idle_ticks };
      },
      resched,
    ) in
    elim current [
      | none ↦ idle
      | some (pid, priority) ↦
          let level = mlq_level_of priority in
          let ticks = inc32 (get_or s.level_ticks level 0) in
          if leb 2 pid
          then (
            record s {
              stats = record (s.stats) { total_ticks = total };
              level_ticks = set s.level_ticks level ticks;
            },
            if leb (get_or mlq_quanta level 0) ticks then true else resched,
          )
          else idle
    ]

unfoldable pub mlq_get_stats : Mlq → SchedulerStats × Mlq
unfolding sum_counts
mlq_get_stats s =
    let stats = record (s.stats) { queue_depth = sum_counts s.queues 0 } in
    (record stats { name = "MLQ" }, record s { stats = stats })
