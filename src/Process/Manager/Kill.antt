-- ===== src/Process/Manager/Kill.antt =====
-- `process_kill` of a process that is not the current one.
use ares_os.Prelude.{
  ℕ, ◌<◌, ◌≡◌, ◌≢◌, refl, ◌∙◌, true, false, ◌||◌, none, some, List, [], arith, ◌==◌, ◌⊎◌, inl, inr,
  Bool-cases, has, remove, has-remove_out, has-remove_self,
}
use ares_os.Process.Table.{Table, terminated, set_state, set_state-next, max_processes}
use ares_os.Process.Queue.{ProcessQueue, queue_remove, dec32}
use ares_os.Process.Queue.Rep.{IsQueue-frame}
use ares_os.Process.Queue.Fifo.{has-ne}
use ares_os.Process.Queue.Walk.{queue_remove-remove}
use ares_os.Process.Pcb.{pcb_free, pcb_by_pid}
use ares_os.Process.Pcb.Slots.{is_free_slot, pcb_free-IsFreed}
use ares_os.Process.Pcb.Lookup.{is_match, pcb_by_pid-first}
use ares_os.Process.Manager.{
  System, success, failure, returns, is_current, kill_other, process_kill,
}
use ares_os.Process.Manager.Create.{IsSound}
use ares_os.Scheduler.Dispatch.{Scheduler, scheduler_remove}
use ares_os.Scheduler.Dispatch.Fifo.{IsFifo-frame, IsFifo-Distinct, scheduler_remove-remove}

-- What a kill leaves: the process waits no more, its slot is free and its entry terminated.
pub record IsKilled (s : System) (xs : List ℕ) (proc : ℕ) (s' : System) : Type 0 where
  pub sound : IsSound s' (remove proc xs)
  pub state : (s'.pcbs.entries proc).state ≡ terminated
  pub free_slot : is_free_slot s'.pcbs proc ≡ true
  pub process_count : s'.process_count ≡ dec32 s.process_count
  pub current_process : s'.current_process ≡ s.current_process

module _ (s : System) (proc : ℕ) (out : Table × Scheduler) (unlinked : Table × ProcessQueue) where
  abbrev killed : System
  killed = record s {
    pcbs =
        pcb_free (record (s.pcbs) { entries = set_state unlinked.0 proc terminated }) (some proc);
    scheduler = out.1;
    blocked_queue = unlinked.1;
    process_count = dec32 s.process_count;
  }

  kill_other-killed :
      scheduler_remove s.pcbs.entries s.scheduler proc ≡ some out
      → queue_remove 65 out.0 s.blocked_queue proc ≡ some unlinked
      → kill_other s proc ≡ some killed
  unfolding kill_other
  kill_other-killed e f = rw (e, kill_other) (rw f)

kill_other-IsKilled :
    (s : System) (xs : List ℕ) (proc : ℕ)
    → IsSound s xs
    → proc < max_processes
    → (s' : System) × (kill_other s proc ≡ some s') × IsKilled s xs proc s'
kill_other-IsKilled s xs proc v b =
    let (out, e, (w, same)) = scheduler_remove-remove s.pcbs.entries s.scheduler xs proc v.waits in
    let empty =
      IsQueue-frame s.pcbs.entries out.0 s.blocked_queue [] (λ a h. absurd (cc)) v.unblocked in
    let (unlinked, f, (q, same', spare)) =
      queue_remove-remove out.0 s.blocked_queue proc [] empty in
    let u = set_state unlinked.0 proc terminated in
    let z = pcb_free-IsFreed (record (s.pcbs) { entries = u }) proc v.slots b in
    let final = (killed s proc out unlinked).pcbs.entries in
    let links : (a : ℕ) → (final a).next ≡ (out.0 a).next =
      λ a. z.links a ∙ set_state-next unlinked.0 proc terminated a ∙ spare a refl in
    let distinct = IsFifo-Distinct s.pcbs.entries s.scheduler xs v.waits in
    (
      killed s proc out unlinked,
      kill_other-killed s proc out unlinked e f,
      record {
        sound = record {
          slots = z.word;
          waits = IsFifo-frame out.0 final out.1 (remove proc xs) (λ a h. links a) w;
          taken = λ a h.
              z.slots a
              ∙ kept a (has-ne a proc (remove proc xs) h (has-remove_self proc xs distinct))
                  (member a h);
          unblocked = IsQueue-frame unlinked.0 final unlinked.1 [] (λ a h. absurd (cc)) q;
        };
        state = z.state;
        free_slot = z.slots proc ∙ ground arith;
        process_count = refl;
        current_process = refl;
      },
    )
  where
    member : (a : ℕ) → has a (remove proc xs) ≡ true → has a xs ≡ true
    member a h = elim (Bool-cases (has a xs)) [
      | inl y ↦ y
      | inr n ↦ absurd (cc (has-remove_out a proc xs n))
    ]

    kept :
        (a : ℕ)
        → (proc == a) ≡ false
        → has a xs ≡ true
        → ((proc == a) || is_free_slot s.pcbs a) ≡ false
    kept a e h = rw e (v.taken a h)

module _ (s : System) (pid : ℕ) where
  kill_found :
      (proc : ℕ) (s' : System)
      → (pid == 1) ≡ false
      → is_current s pid ≡ false
      → pcb_by_pid s.pcbs pid ≡ some proc
      → kill_other s proc ≡ some s'
      → process_kill s pid ≡ some (success, returns, s')
  unfolding process_kill
  kill_found proc s' i c f k = rw (i, c, process_kill) (rw f (rw k))

  kill_unknown :
      (pid == 1) ≡ false
      → is_current s pid ≡ false
      → pcb_by_pid s.pcbs pid ≡ none
      → process_kill s pid ≡ some (failure, returns, s)
  unfolding process_kill
  kill_unknown i c f = rw (i, c, process_kill) (rw f)

-- `process_kill` of a pid that is neither the idle process's nor the current one's: with no active
-- process of that pid it fails and changes nothing; otherwise the first active entry with that pid is
-- terminated, waits no more and its slot is free again, while the others keep their order. This is
-- under the first-come and the round-robin policy, with no process blocked.
pub process_kill-IsKilled :
    (s : System) (xs : List ℕ) (pid : ℕ)
    → IsSound s xs
    → pid ≢ 1
    → is_current s pid ≡ false
    → (((j : ℕ) → j < max_processes → is_match s.pcbs.entries pid j ≡ false)
        × (process_kill s pid ≡ some (failure, returns, s)))
      ⊎ ((proc : ℕ) × (s' : System) × (is_match s.pcbs.entries pid proc ≡ true)
          × ((j : ℕ) → j < proc → is_match s.pcbs.entries pid j ≡ false)
          × (process_kill s pid ≡ some (success, returns, s'))
          × IsKilled s xs proc s')
process_kill-IsKilled s xs pid v i c = elim (pcb_by_pid-first s.pcbs pid) [
  | inl (unknown, e) ↦ inl (unknown, kill_unknown s pid (ground arith) c e)
  | inr (proc, b, hit, first, e) ↦
      let (s', k, w) = kill_other-IsKilled s xs proc v b in
      inr (proc, s', hit, first, kill_found s pid proc s' (ground arith) c e k, w)
]
