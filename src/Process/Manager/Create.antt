-- ===== src/Process/Manager/Create.antt =====
-- `process_create`: the slot, the place in the ready queue and the first stack frame.
use ares_os.Prelude.{
  ℕ, ◌<◌, ◌≡◌, refl, ◌∙◌, ap, true, false, none, some, List, [], ◌∷◌, ◌++◌, arith, ◌==◌, ◌⊎◌, inl,
  inr, Bool-cases, has, has-append, Below-has,
}
use ares_os.Process.Table.{ready, write, max_processes}
use ares_os.Process.Queue.{inc32}
use ares_os.Process.Queue.Rep.{IsQueue, IsQueue-frame}
use ares_os.Process.Queue.Fifo.{has-ne}
use ares_os.Process.Pcb.{pcb_alloc}
use ares_os.Process.Pcb.Slots.{
  is_free_slot, IsSlots, IsLowestSlot, IsGiven, given, pcb_alloc-lowest,
}
use ares_os.Process.Manager.{System, first_frame, ready_of, start_process, process_create}
use ares_os.Scheduler.Dispatch.{scheduler_add}
use ares_os.Scheduler.Dispatch.Fifo.{IsFifo, IsFifo-frame, IsFifo-entries, scheduler_add-append}

-- The processes `xs` wait, each in a slot that is taken, and none is blocked.
pub record IsSound (s : System) (xs : List ℕ) : Type 0 where
  pub slots : IsSlots s.pcbs
  pub waits : IsFifo s.pcbs.entries s.scheduler xs
  pub taken : (a : ℕ) → has a xs ≡ true → is_free_slot s.pcbs a ≡ false
  pub unblocked : IsQueue s.pcbs.entries s.blocked_queue []

-- A new process at slot `i`: it is the last of those that wait.
pub record IsCreated (s : System) (xs : List ℕ) (level i : ℕ) (s' : System) : Type 0 where
  pub sound : IsSound s' (xs ++ (i ∷ []))
  pub pid : (s'.pcbs.entries i).pid ≡ s.next_pid
  pub state : (s'.pcbs.entries i).state ≡ ready
  pub priority : (s'.pcbs.entries i).priority ≡ level
  pub next_pid : s'.next_pid ≡ inc32 s.next_pid
  pub process_count : s'.process_count ≡ inc32 s.process_count

module _ (s : System) (name : List ℕ) (entry priority i : ℕ) where
  abbrev started : System
  started = start_process s (given s.pcbs i) i name entry priority

  create_started :
      pcb_alloc s.pcbs ≡ some (some i, given s.pcbs i)
      → process_create s name entry priority ≡ some (some i, started)
  unfolding process_create
  create_started e = rw (e, process_create)

  create_none :
      pcb_alloc s.pcbs ≡ some (none, s.pcbs) → process_create s name entry priority ≡ some (none, s)
  unfolding process_create
  create_none e = rw (e, process_create)

  -- a free slot is not that of a process that waits
  fresh : (xs : List ℕ) → IsSound s xs → IsLowestSlot s.pcbs i → has i xs ≡ false
  fresh xs v l = elim (Bool-cases (has i xs)) [
    | inl h ↦ absurd (cc (v.taken i h, l.is_free))
    | inr h ↦ h
  ]

  started_taken :
      (xs : List ℕ)
      → IsSound s xs
      → IsGiven s.pcbs i (given s.pcbs i)
      → i < max_processes
      → (a : ℕ) → has a (xs ++ (i ∷ [])) ≡ true
      → is_free_slot (given s.pcbs i) a ≡ false
  started_taken xs v g b a h = elim (Bool-cases (has a xs)) [
    | inl old ↦
        let below : a < 64 =
          Below-has max_processes a xs (IsFifo-entries s.pcbs.entries s.scheduler xs v.waits) old in
        g.slots a below ∙ ground (arith, v.taken a old)
    | inr new ↦
        let e : (i == a) ≡ true = ground (arith, has-append a xs (i ∷ [])) in
        let below : a < 64 = ground arith in g.slots a below ∙ rw e
  ]

  started-IsCreated :
      (xs : List ℕ)
      → IsSound s xs
      → IsLowestSlot s.pcbs i
      → IsGiven s.pcbs i (given s.pcbs i)
      → IsCreated s xs priority i started
  unfolding start_process write
  started-IsCreated xs v l g =
      let m = given s.pcbs i in
      let (rsp, memory) = first_frame entry ((m.entries i).stack_base, s.memory) in
      let t = write m.entries i (ready_of (m.entries i) s.next_pid name priority rsp) in
      let other : (a : ℕ) → (i == a) ≡ false → t a ≡ s.pcbs.entries a =
        λ a h. rw h (g.others a h) in
      let out : has i xs ≡ false = fresh xs v l in
      let new : (a : ℕ) → has a xs ≡ true → (i == a) ≡ false = λ a h. has-ne a i xs h out in
      let w : IsFifo t s.scheduler xs =
        IsFifo-frame s.pcbs.entries t s.scheduler xs (λ a h. ap (λ c. c.next) (other a (new a h)))
          v.waits in
      let (full, same) = scheduler_add-append t s.scheduler xs i w out l.inside in
      let (u, p) = scheduler_add t s.scheduler i in
      record {
        sound = record {
          slots = g.word;
          waits = full;
          taken = started_taken xs v g l.inside;
          unblocked =
              IsQueue-frame s.pcbs.entries u s.blocked_queue [] (λ a h. absurd (cc)) v.unblocked;
        };
        pid = ap (λ c. c.pid) (same i) ∙ ground arith;
        state = ap (λ c. c.state) (same i) ∙ ground arith;
        priority = ap (λ c. c.priority) (same i) ∙ ground arith;
        next_pid = refl;
        process_count = refl;
      }

-- `process_create` returns NULL exactly when no slot is free, and then changes nothing. Otherwise
-- the new process has the lowest free slot and the next pid, is ready, with the priority that was
-- asked for, and is the last of the processes that wait. This is under the first-come and the
-- round-robin policy, with no process blocked.
pub process_create-IsCreated :
    (s : System) (xs name : List ℕ) (entry priority : ℕ)
    → IsSound s xs
    → (((j : ℕ) → is_free_slot s.pcbs j ≡ false)
        × (process_create s name entry priority ≡ some (none, s)))
      ⊎ ((i : ℕ) × (s' : System) × IsLowestSlot s.pcbs i
          × (process_create s name entry priority ≡ some (some i, s'))
          × IsCreated s xs priority i s')
process_create-IsCreated s xs name entry priority v = elim (pcb_alloc-lowest s.pcbs v.slots) [
  | inl (full, e) ↦ inl (full, create_none s name entry priority 0 e)
  | inr (i, l, e, g) ↦ inr (
    i,
    started s name entry priority i,
    l,
    create_started s name entry priority i e,
    started-IsCreated s name entry priority i xs v l g,
  )
]
