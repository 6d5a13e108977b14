-- ===== src/Scheduler/Mlq/Quantum.antt =====
-- When the tick of the multi-level queue asks for a new process.
use ares_os.Prelude.{
  ℕ, zero, suc, ◌+◌, ◌-◌, ◌*◌, ◌<◌, ◌^◌, ◌≡◌, ◌∙◌, ap, Bool, true, false, ◌||◌, ◌&&◌, Option, none,
  some, arith, leb, length, length-set, get_or, set, get_or-set_self, replicate, get_or-replicate,
  min, if◌then◌else◌,
}
use ares_os.Process.Table.{Table, Ptr}
use ares_os.Process.Queue.{ProcessQueue, queue_pop, inc32}
use ares_os.Scheduler.Stats.{inc64}
use ares_os.Scheduler.Levels.{queue_at}
use ares_os.Scheduler.Mlq.{Mlq, mlq_level_of, mlq_quanta, mlq_next, mlq_scan, mlq_tick, mlq_levels}

-- `n` ticks while one process runs.
pub mlq_ticks : ℕ → Option (ℕ × ℕ) → Mlq → Bool → Mlq × Bool
mlq_ticks zero current s resched = (s, resched)
mlq_ticks (suc n) current s resched =
    let (s', resched') = mlq_tick current s resched in mlq_ticks n current s' resched'

-- The quantum of a priority: 2 ticks for the highest, 8 for the lowest.
abbrev pub quantum_of : ℕ → ℕ
quantum_of priority = 8 - 2 * min priority 3

quantum-level : (priority : ℕ) → get_or mlq_quanta (mlq_level_of priority) 0 ≡ quantum_of priority
quantum-level priority = ground arith

level-lt : (priority : ℕ) → mlq_level_of priority < 4
level-lt priority = ground arith

-- One tick of a busy process.
mlq_tick_busy :
    (s : Mlq) (pid priority : ℕ) (resched : Bool)
    → 1 < pid
    → length s.level_ticks ≡ 4
    → let (s', resched') = mlq_tick (some (pid, priority)) s resched in
      let i = mlq_level_of priority in
      (get_or s'.level_ticks i 0 ≡ inc32 (get_or s.level_ticks i 0))
      × (length s'.level_ticks ≡ 4)
      × (resched' ≡ (resched || leb (quantum_of priority) (inc32 (get_or s.level_ticks i 0))))
unfolding mlq_tick
mlq_tick_busy s pid priority resched b l =
    let i = mlq_level_of priority in
    let v = inc32 (get_or s.level_ticks i 0) in
    let busy : leb 2 pid ≡ true = ground arith in
    let e = get_or-set_self s.level_ticks i v 0 (omega (arith, level-lt priority)) in
    rw busy (
      e,
      length-set s.level_ticks i v ∙ l,
      ap (λ q. if leb q v then true else resched) (quantum-level priority) ∙ ground arith,
    )

mlq_ticks-from :
    (n pid priority : ℕ) (s : Mlq) (resched : Bool)
    → 1 < pid
    → length s.level_ticks ≡ 4
    → get_or s.level_ticks (mlq_level_of priority) 0 + n < 2 ^ 32
    → (mlq_ticks n (some (pid, priority)) s resched).1 ≡ (
        resched
        || (leb 1 n
            && leb (quantum_of priority) (get_or s.level_ticks (mlq_level_of priority) 0 + n)))
unfolding mlq_ticks
mlq_ticks-from zero pid priority s resched b l h = ground arith
mlq_ticks-from (suc n) pid priority s resched b l h =
    let (s', resched') = mlq_tick (some (pid, priority)) s resched in
    let (c, l', r) = mlq_tick_busy s pid priority resched b l in
    let i = mlq_level_of priority in
    let c' : get_or s'.level_ticks i 0 ≡ get_or s.level_ticks i 0 + 1 = omega (arith, c) in
    mlq_ticks-from n pid priority s' resched' b l' (omega (arith, c'))
    ∙ ticks_once n (get_or s.level_ticks i 0) (get_or s'.level_ticks i 0) (quantum_of priority)
        resched resched' c' (r ∙ ap (λ k. resched || leb (quantum_of priority) k) (omega (arith)))
  where
    ticks_once :
        (n a a' q : ℕ) (r r' : Bool)
        → a' ≡ a + 1
        → r' ≡ (r || leb q (a + 1))
        → (r' || (leb 1 n && leb q (a' + n))) ≡ (r || (leb 1 (suc n) && leb q (a + suc n)))
    ticks_once n a a' q r r' e f = ground arith

mlq_scan-resets :
    (n i : ℕ) (t u : Table) (s s' : Mlq) (p : ℕ)
    → mlq_scan n i t s ≡ (some p, u, s')
    → s'.level_ticks ≡ replicate mlq_levels 0
unfolding mlq_scan
mlq_scan-resets zero i t u s s' p e = absurd (cc)
mlq_scan-resets (suc n) i t u s s' p e =
    go (queue_pop t (queue_at s.queues i)) (mlq_scan-resets n (i + 1)) e
  where
    go :
        (popped : Ptr × Table × ProcessQueue)
        → ((t u : Table) (s s' : Mlq) (p : ℕ)
            → mlq_scan n (i + 1) t s ≡ (some p, u, s')
            → s'.level_ticks ≡ replicate mlq_levels 0)
        → (let (r, w, q) = popped in
            let queues = set s.queues i q in
            let result : Ptr × Table × Mlq = elim r [
              | none ↦ mlq_scan n (i + 1) w (record s { queues = queues })
              | some p ↦ (
                some p,
                w,
                record {
                  queues = queues;
                  stats = record (s.stats) { context_switches = inc64 s.stats.context_switches };
                  level_ticks = replicate mlq_levels 0;
                },
              )
            ] in
            result ≡ (some p, u, s'))
        → s'.level_ticks ≡ replicate mlq_levels 0
    go (none, w, q) later f = later w u (record s { queues = set s.queues i q }) s' p f
    go (some r, w, q) later f = ground arith

-- A process that `mlq_next` has just picked has a quantum by its priority: 2 ticks at 3 or above, 4
-- at 2, 6 at 1 and 8 at 0. With the flag clear, the tick handler has set it after `n` ticks exactly
-- when `n` is at least that. The process is not the idle process, whose pid is 1, and `n` fits the
-- counter.
pub mlq_quantum :
    (t u : Table) (s s' : Mlq) (p pid priority n : ℕ)
    → mlq_next t s ≡ (some p, u, s')
    → 1 < pid
    → n < 2 ^ 32
    → (mlq_ticks n (some (pid, priority)) s' false).1 ≡ leb (quantum_of priority) n
unfolding mlq_next
mlq_quantum t u s s' p pid priority n e b h =
    let z = mlq_scan-resets 4 0 t u s s' p e in
    let c : get_or s'.level_ticks (mlq_level_of priority) 0 ≡ 0 =
      ap (λ k. get_or k (mlq_level_of priority) 0) z
      ∙ get_or-replicate {A = ℕ} 4 0 (mlq_level_of priority) in
    mlq_ticks-from n pid priority s' false b (ap length z) (omega (arith, c))
    ∙ finish n (get_or s'.level_ticks (mlq_level_of priority) 0) priority c
  where
    finish :
        (n a priority : ℕ)
        → a ≡ 0
        → (false || (leb 1 n && leb (quantum_of priority) (a + n))) ≡ leb (quantum_of priority) n
    finish n a priority e = ground arith
