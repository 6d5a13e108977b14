-- ===== src/Process/Manager/Exit.antt =====
-- `process_exit`: which process becomes the current one, where the processor goes on, and what is left
-- of the process.
use ares_os.Prelude.{ℕ, ◌<◌, ◌≡◌, refl, ◌∙◌, true, false, some, List, [], ◌∷◌, arith, has}
use ares_os.Process.Table.{
  Table, Ptr, running, terminated, set_state, set_state-next, max_processes,
}
use ares_os.Process.Queue.{dec32}
use ares_os.Process.Queue.Rep.{IsQueue-frame}
use ares_os.Process.Queue.Fifo.{has-ne}
use ares_os.Process.Pcb.{pcb_free}
use ares_os.Process.Pcb.Slots.{is_free_slot, pcb_free-IsFreed}
use ares_os.Process.Context.{set_rsp-next, set_rsp-state, set_rsp_self}
use ares_os.Process.Manager.{System, returns, process_exit}
use ares_os.Process.Manager.Switch.{HasRoom, overwritten, switch_to_self}
use ares_os.Process.Manager.Create.{IsSound}
use ares_os.Scheduler.Dispatch.{Scheduler, scheduler_next}
use ares_os.Scheduler.Dispatch.Fifo.{IsFifo-frame, scheduler_next-Front}

module _ (s : System) (dead x sp : ℕ) where
  abbrev taken : Ptr × Table × Scheduler
  taken = scheduler_next (set_state s.pcbs.entries dead terminated) s.scheduler

  abbrev elected : System
  elected = record s {
    pcbs = pcb_free (record (s.pcbs) { entries = set_state taken.1 x running }) (some dead);
    scheduler = taken.2;
    current_process = some x;
    process_count = dec32 s.process_count;
  }

  abbrev left : System
  left = overwritten elected x sp

  exit_left :
      s.current_process ≡ some dead
      → taken.0 ≡ some x
      → HasRoom s.cpu sp
      → process_exit s ≡ (returns, left)
  unfolding process_exit
  exit_left e f v = rw (e, process_exit) (rw f (switch_to_self elected x sp refl v))

-- What an exit leaves: the current process, those that wait, a free slot, and the registers.
pub record IsLeft (s : System) (xs : List ℕ) (dead x sp : ℕ) (s' : System) : Type 0 where
  pub sound : IsSound s' xs
  pub current_process : s'.current_process ≡ some x
  pub free_slot : is_free_slot s'.pcbs dead ≡ true
  pub state : (s'.pcbs.entries dead).state ≡ terminated
  pub process_count : s'.process_count ≡ dec32 s.process_count
  pub cpu : s'.cpu ≡ s.cpu
  pub saved : (s'.pcbs.entries x).rsp ≡ sp

-- `process_exit` of a process that does not wait itself terminates the entry, frees the slot and makes
-- the first of those that wait the current process; the others keep their order. It returns to its
-- caller all the same, with the registers that the caller had: `current_process` is set before
-- `context_switch` saves the stack pointer, which goes to the entry of the next process in place of
-- the one there. This is under the first-come and the round-robin policy, with no process blocked,
-- where the caller's stack has room for the registers.
pub process_exit-IsLeft :
    (s : System) (dead x : ℕ) (xs : List ℕ) (sp : ℕ)
    → IsSound s (x ∷ xs)
    → s.current_process ≡ some dead
    → dead < max_processes
    → has dead (x ∷ xs) ≡ false
    → HasRoom s.cpu sp
    → (s' : System) × (process_exit s ≡ (returns, s')) × IsLeft s xs dead x sp s'
process_exit-IsLeft s dead x xs sp v e b out room =
    let t = set_state s.pcbs.entries dead terminated in
    let w =
      IsFifo-frame s.pcbs.entries t s.scheduler (x ∷ xs)
        (λ a h. set_state-next s.pcbs.entries dead terminated a) v.waits in
    let (r, rest, same) = scheduler_next-Front t s.scheduler x xs w in
    let (r', u, p) = scheduler_next t s.scheduler in
    let z = pcb_free-IsFreed (record (s.pcbs) { entries = set_state u x running }) dead v.slots b in
    let s' = left s dead x sp in
    let freed = (elected s dead x sp).pcbs.entries in
    let links : (a : ℕ) → (s'.pcbs.entries a).next ≡ (u a).next =
      λ a. set_rsp-next freed x sp a ∙ z.links a ∙ set_state-next u x running a in
    (
      s',
      exit_left s dead x sp e r room,
      record {
        sound = record {
          slots = z.word;
          waits = IsFifo-frame u s'.pcbs.entries p xs (λ a h. links a) rest;
          taken = λ a h.
              let m : has a (x ∷ xs) ≡ true = ground arith in
              z.slots a ∙ rw (has-ne a dead (x ∷ xs) m out) (v.taken a m);
          unblocked =
              IsQueue-frame s.pcbs.entries s'.pcbs.entries s.blocked_queue [] (λ a h. absurd (cc))
                v.unblocked;
        };
        current_process = refl;
        free_slot = z.slots dead ∙ ground arith;
        state = set_rsp-state freed x sp dead ∙ z.state;
        process_count = refl;
        cpu = refl;
        saved = set_rsp_self freed x sp;
      },
    )
