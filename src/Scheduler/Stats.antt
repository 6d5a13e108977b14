-- ===== src/Scheduler/Stats.antt =====
-- scheduler/scheduler.h: the counters that every policy keeps, and the test of the tick handlers.
use Prim.Native.String.{String}
use ares_os.Prelude.{ℕ, ◌+◌, ◌%◌, ◌^◌, Bool, false, Option, none, some, ltb}

abbrev pub quantum_default : ℕ
quantum_default = 3

pub record SchedulerStats : Type 0 where
  pub name : String
  pub context_switches : ℕ
  pub idle_ticks : ℕ
  pub total_ticks : ℕ
  pub processes_completed : ℕ
  pub queue_depth : ℕ

-- `x++` on `uint64_t`
abbrev pub inc64 : ℕ → ℕ
inc64 x = (x + 1) % 2 ^ 64

abbrev pub fresh_stats : String → SchedulerStats
fresh_stats name = record {
  name = name;
  context_switches = 0;
  idle_ticks = 0;
  total_ticks = 0;
  processes_completed = 0;
  queue_depth = 0;
}

-- `current_process && current_process->pid > 1U`; the argument is the current process's pid.
abbrev pub is_busy : Option ℕ → Bool
is_busy none = false
is_busy (some pid) = ltb 1 pid
