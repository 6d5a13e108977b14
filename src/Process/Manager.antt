-- ===== src/Process/Manager.antt =====
-- process/process.c: creation, exit, kill and yield. The globals, those of process/pcb.c and of the
-- scheduler are the fields of `System`, with the registers and the memory.
pub mod Switch
pub mod Cycle
pub mod Create
pub mod Kill
pub mod Frame
pub mod Exit
mod Tests
use ares_os.Prelude.{
  ℕ, zero, suc, ◌+◌, ◌-◌, ◌%◌, ◌^◌, Bool, true, false, Option, none, some, List, [], ◌∷◌, ◌==◌,
  if◌then◌else◌, get_or, set,
}
use ares_os.Process.Table.{
  Table, Ptr, Pcb, ready, running, terminated, write, set_state, process_name_max,
}
use ares_os.Process.Context.{Memory, push_word, Cpu, context_switch}
use ares_os.Process.Queue.{ProcessQueue, queue_init, queue_remove, inc32, dec32}
use ares_os.Process.Pcb.{PcbTable, pcb_init_table, pcb_alloc, pcb_free, pcb_by_pid}
use ares_os.Scheduler.Dispatch.{Scheduler, scheduler_add, scheduler_remove, scheduler_next}

-- `cpu` holds the registers at a call of `context_switch`; the words that the C functions push and pop
-- before and after it are left out.
pub record System : Type 0 where
  pub pcbs : PcbTable
  pub scheduler : Scheduler
  pub blocked_queue : ProcessQueue
  pub current_process : Ptr
  pub next_pid : ℕ
  pub process_count : ℕ
  pub cpu : Cpu
  pub memory : Memory

-- How an operation ends: it returns, the processor goes on with a process on another stack, or it
-- halts the machine.
pub data Control : Type 0 where
  returns : Control
  switches : ℕ → Control
  halts : Control

-- `return 0` and `return -1`
pub data Status : Type 0 where
  success failure : Status

abbrev pub with_table : System → Table → Scheduler → System
with_table s t p = record s { pcbs = record (s.pcbs) { entries = t }; scheduler = p }

-- `while (name[i] && i < PROCESS_NAME_MAX - 1)`, with the rounds left, and the final NUL; a string
-- is the list of its characters
pub copy_name : ℕ → ℕ → List ℕ → List ℕ → List ℕ
copy_name zero i name dest = set dest i 0
copy_name (suc n) i name dest =
    let rest = copy_name n (i + 1) name (set dest i (get_or name i 0)) in
    if get_or name i 0 == 0 then set dest i 0 else rest

-- the return address, and zeros for r15 to rbp
pub first_frame : ℕ → ℕ × Memory → ℕ × Memory
first_frame entry m =
    push_word 0
      (push_word 0 (push_word 0 (push_word 0 (push_word 0 (push_word 0 (push_word entry m))))))

-- The writes to `*pcb`, with the pid, and the stack pointer that the frame leaves.
abbrev pub ready_of : Pcb → (pid : ℕ) (name : List ℕ) (priority rsp : ℕ) → Pcb
ready_of c pid name priority rsp = record c {
  pid = pid;
  name = copy_name (process_name_max - 1) 0 name c.name;
  priority = priority;
  state = ready;
  cr3 = 0;
  time_created = 0;
  total_ticks = 0;
  wake_tick = 0;
  rsp = rsp;
}

-- What `process_create` does with the slot that it got.
pub start_process : System → PcbTable → ℕ → (name : List ℕ) (entry priority : ℕ) → System
unfolding write
start_process s m p name entry priority =
    let c = m.entries p in
    let (rsp, memory) = first_frame entry (c.stack_base, s.memory) in
    let t = write m.entries p (ready_of c s.next_pid name priority rsp) in
    let (u, sched) = scheduler_add t s.scheduler p in
    record s {
      pcbs = record m { entries = u };
      scheduler = sched;
      next_pid = inc32 s.next_pid;
      process_count = inc32 s.process_count;
      memory = memory;
    }

pub process_create : System → (name : List ℕ) (entry priority : ℕ) → Option (Ptr × System)
process_create s name entry priority = elim (pcb_alloc s.pcbs) [
  | none ↦ none
  | some (none, m) ↦ some (none, record s { pcbs = m })
  | some (some p, m) ↦ some (some p, start_process s m p name entry priority)
]

-- `idle_process` is the address of the idle loop; the name is "idle".
pub process_init : System → (idle_process : ℕ) → Option System
process_init s idle_process =
    let s' = record s {
      pcbs = pcb_init_table s.pcbs;
      blocked_queue = queue_init;
      current_process = none;
      next_pid = 1;
      process_count = 0;
    } in
    elim (process_create s' (105 ∷ 100 ∷ 108 ∷ 101 ∷ []) idle_process 0) [
      | none ↦ none
      | some (p, s'') ↦ some s''
    ]

-- `context_switch(next)`: with the stack pointer it was called with, `ret` leads back to the caller.
pub switch_to : System → ℕ → Control × System
switch_to s next =
    let (t, cpu, memory) = context_switch s.current_process next s.pcbs.entries s.cpu s.memory in
    (
      if cpu.rsp == s.cpu.rsp then returns else switches next,
      record s { pcbs = record (s.pcbs) { entries = t }; cpu = cpu; memory = memory },
    )

-- After the switch `process_exit` returns, if that is where the processor goes on.
pub process_exit : System → Control × System
unfolding set_state
process_exit s = elim s.current_process [
  | none ↦ (returns, s)
  | some dead ↦
      let t = set_state s.pcbs.entries dead terminated in
      let count = dec32 s.process_count in
      let (next, u, sched) = scheduler_next t s.scheduler in
      elim next [
        | none ↦ (halts, record (with_table s u sched) { process_count = count })
        | some p ↦
            let v = set_state u p running in
            switch_to
              (record s {
                pcbs = pcb_free (record (s.pcbs) { entries = v }) (some dead);
                scheduler = sched;
                current_process = some p;
                process_count = count;
              })
              p
      ]
]

pub process_by_pid : System → ℕ → Ptr
process_by_pid s pid = elim s.current_process [
  | none ↦ pcb_by_pid s.pcbs pid
  | some c ↦ if (s.pcbs.entries c).pid == pid then some c else pcb_by_pid s.pcbs pid
]

-- `current_process && current_process->pid == pid`
pub is_current : System → ℕ → Bool
is_current s pid = elim s.current_process [ none ↦ false | some c ↦ (s.pcbs.entries c).pid == pid ]

-- the end of `process_kill`, for a process that is not the current one
pub kill_other : System → ℕ → Option System
unfolding set_state
kill_other s proc = elim (scheduler_remove s.pcbs.entries s.scheduler proc) [
  | none ↦ none
  | some (t, sched) ↦ elim (queue_remove 65 t s.blocked_queue proc) [
    | none ↦ none
    | some (u, q) ↦ some (record s {
      pcbs = pcb_free (record (s.pcbs) { entries = set_state u proc terminated }) (some proc);
      scheduler = sched;
      blocked_queue = q;
      process_count = dec32 s.process_count;
    })
  ]
]

-- The status is what the call returns where it returns.
pub process_kill : System → ℕ → Option (Status × Control × System)
process_kill s pid =
    if pid == 1
    then some (failure, returns, s)
    else if is_current s pid
    then some (let (c, s') = process_exit s in (success, c, s'))
    else elim (pcb_by_pid s.pcbs pid) [
      | none ↦ some (failure, returns, s)
      | some proc ↦ elim (kill_other s proc) [ none ↦ none | some s' ↦ some (success, returns, s') ]
    ]

-- the end of `yield`, after the current process was put back
pub yield_to_next : System → ℕ → Option (Control × System)
unfolding set_state
yield_to_next s current =
    let (next, t, sched) = scheduler_next s.pcbs.entries s.scheduler in
    elim next [
      | none ↦ elim (scheduler_remove t sched current) [
        | none ↦ none
        | some (u, sched') ↦ some (returns, with_table s u sched')
      ]
      | some p ↦ some (
          switch_to
            (record (with_table s (set_state t p running) sched) { current_process = some p }) p)
    ]

pub yield : System → Option (Control × System)
unfolding set_state
yield s = elim s.current_process [
  | none ↦ some (returns, s)
  | some current ↦
      let t = set_state s.pcbs.entries current ready in
      let (u, sched) = scheduler_add t s.scheduler current in
      yield_to_next (with_table s u sched) current
]
