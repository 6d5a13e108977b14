-- ===== src/Process/Manager/Tests.antt =====
-- The theorems on the process manager at concrete systems.
use ares_os.Prelude.{
  ℕ, ◌+◌, ◌-◌, ◌<◌, ◌^◌, ◌≡◌, refl, true, false, none, some, [], ◌∷◌, arith, ◌==◌, ◌⊎◌, inl, inr,
  Bool-cases, has,
}
use mathlib.Core.Path.{subst}
use ares_os.Prelude.Word.{bit}
use ares_os.Process.Table.{Table, ready, set_next, max_processes}
use ares_os.Process.Queue.{queue_init, queue_push}
use ares_os.Process.Queue.Fifo.{queue_init-IsQueue}
use ares_os.Process.Pcb.Slots.{is_free_slot, IsLowestSlot}
use ares_os.Process.Pcb.Lookup.{is_match}
use ares_os.Process.Context.{Cpu}
use ares_os.Process.Manager.Switch.{HasRoom}
use ares_os.Process.Manager.{
  System, returns, success, failure, is_current, process_create, process_kill, process_exit,
}
use ares_os.Process.Manager.Create.{IsSound, IsCreated, process_create-IsCreated}
use ares_os.Process.Manager.Kill.{IsKilled, process_kill-IsKilled}
use ares_os.Process.Manager.Exit.{IsLeft, process_exit-IsLeft}
use ares_os.Process.Manager.Cycle.{IsCycle, Yielded, yield-next, Turned, yields-IsCycle}
use ares_os.Scheduler.Fcfs.{fcfs_init}
use ares_os.Scheduler.Rr.{rr_init, rr_add}
use ares_os.Scheduler.Priority.{prio_init}
use ares_os.Scheduler.Mlq.{mlq_init}
use ares_os.Scheduler.Dispatch.{Scheduler, scheduler_add, sched_rr, rr_ops}
use ares_os.Scheduler.Dispatch.Fifo.{IsFifo, scheduler_add-append}

-- process `p` has pid `p + 1`
abbrev table : Table
table p = record {
  pid = p + 1;
  state = ready;
  name = [];
  priority = 1;
  rsp = 0;
  rip = 0;
  rflags = 0;
  cr3 = 0;
  stack_base = 0;
  time_created = 0;
  total_ticks = 0;
  wake_tick = 0;
  next = none;
}

abbrev round_robin : Scheduler
round_robin = record {
  active = some rr_ops;
  sched_id = sched_rr;
  need_resched = false;
  fcfs = fcfs_init;
  rr = rr_init;
  priority = prio_init;
  mlq = mlq_init;
}

abbrev one : Table × Scheduler
one = scheduler_add table round_robin 5

abbrev two : Table × Scheduler
two = scheduler_add one.0 one.1 3

empty-IsFifo : IsFifo table round_robin []
unfolding rr_init
empty-IsFifo = inr (refl, queue_init-IsQueue table)

one-IsFifo : IsFifo one.0 one.1 (5 ∷ [])
one-IsFifo = (scheduler_add-append table round_robin [] 5 empty-IsFifo refl (omega arith)).0

two-IsFifo : IsFifo two.0 two.1 (5 ∷ 3 ∷ [])
two-IsFifo = (scheduler_add-append one.0 one.1 (5 ∷ []) 3 one-IsFifo refl (omega arith)).0

abbrev registers : Cpu
registers = record { rsp = 0x207030; rbp = 6; rbx = 1; r12 = 2; r13 = 3; r14 = 4; r15 = 5 }

-- Slots 3, 5 and 7 are taken; the process in slot 7 runs.
abbrev sample : System
sample = record {
  pcbs = record {
    entries = two.0;
    slot_free_map = 2 ^ 64 - 1 - 2 ^ 3 - 2 ^ 5 - 2 ^ 7;
    stacks = 0x200000;
  };
  scheduler = two.1;
  blocked_queue = queue_init;
  current_process = some 7;
  next_pid = 9;
  process_count = 3;
  cpu = registers;
  memory = λ a. 0;
}

sample-HasRoom : HasRoom sample.cpu 0x207000
sample-HasRoom = record { top = omega arith; bound = omega arith }

sample-IsSound : IsSound sample (5 ∷ 3 ∷ [])
unfolding bit
sample-IsSound = record {
  slots = omega arith;
  waits = two-IsFifo;
  taken = taken;
  unblocked = queue_init-IsQueue two.0;
}
  where
    taken : (a : ℕ) → has a (5 ∷ 3 ∷ []) ≡ true → is_free_slot sample.pcbs a ≡ false
    taken a h = elim (Bool-cases (a == 5)) [
      | inl e ↦
          let e' : 5 ≡ a = ground arith in subst (λ k. is_free_slot sample.pcbs k ≡ false) e' refl
      | inr e ↦
          let e' : 3 ≡ a = ground arith in subst (λ k. is_free_slot sample.pcbs k ≡ false) e' refl
    ]

sample-IsCycle : IsCycle sample (5 ∷ 3 ∷ 7 ∷ [])
sample-IsCycle = record {
  others = 5 ∷ 3 ∷ [];
  current = 7;
  split = refl;
  runs = refl;
  waits = two-IsFifo;
  apart = refl;
  inside = omega arith;
}

yield-next_example : (s' : System) × Yielded sample 5 (3 ∷ 7 ∷ []) 0x207000 s'
yield-next_example = yield-next sample 5 (3 ∷ 7 ∷ []) 0x207000 sample-IsCycle sample-HasRoom

yields-IsCycle_example : (s' : System) × Turned sample 3 (5 ∷ 3 ∷ 7 ∷ []) (5 ∷ 3 ∷ 7 ∷ []) s'
yields-IsCycle_example =
    yields-IsCycle sample (5 ∷ 3 ∷ 7 ∷ []) 0x207000 sample-IsCycle sample-HasRoom

process_create-IsCreated_example :
    (((j : ℕ) → is_free_slot sample.pcbs j ≡ false)
      × (process_create sample (65 ∷ []) 0x100000 2 ≡ some (none, sample)))
    ⊎ ((i : ℕ) × (s' : System) × IsLowestSlot sample.pcbs i
        × (process_create sample (65 ∷ []) 0x100000 2 ≡ some (some i, s'))
        × IsCreated sample (5 ∷ 3 ∷ []) 2 i s')
process_create-IsCreated_example =
    process_create-IsCreated sample (5 ∷ 3 ∷ []) (65 ∷ []) 0x100000 2 sample-IsSound

not_current : is_current sample 6 ≡ false
unfolding is_current scheduler_add rr_add queue_push rr_init queue_init set_next
not_current = refl

process_kill-IsKilled_example :
    (((j : ℕ) → j < max_processes → is_match two.0 6 j ≡ false)
      × (process_kill sample 6 ≡ some (failure, returns, sample)))
    ⊎ ((proc : ℕ) × (s' : System) × (is_match two.0 6 proc ≡ true)
        × ((j : ℕ) → j < proc → is_match two.0 6 j ≡ false)
        × (process_kill sample 6 ≡ some (success, returns, s'))
        × IsKilled sample (5 ∷ 3 ∷ []) proc s')
process_kill-IsKilled_example =
    process_kill-IsKilled sample (5 ∷ 3 ∷ []) 6 sample-IsSound (omega arith) not_current

process_exit-IsLeft_example :
    (s' : System) × (process_exit sample ≡ (returns, s')) × IsLeft sample (3 ∷ []) 7 5 0x207000 s'
process_exit-IsLeft_example =
    process_exit-IsLeft sample 7 5 (3 ∷ []) 0x207000 sample-IsSound refl (omega arith) refl
      sample-HasRoom
