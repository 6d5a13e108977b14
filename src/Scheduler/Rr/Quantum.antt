-- ===== src/Scheduler/Rr/Quantum.antt =====
-- When the round-robin tick asks for a new process.
use ares_os.Prelude.{
  ℕ, zero, suc, ◌+◌, ◌<◌, ◌^◌, ◌≡◌, refl, ◌∙◌, Bool, false, ◌||◌, Option, some, arith, leb, ◌&&◌,
}
use ares_os.Process.Table.{Table}
use ares_os.Scheduler.Stats.{is_busy}
use ares_os.Scheduler.Rr.{Rr, rr_next, rr_tick}

-- `n` ticks while one process runs.
pub rr_ticks : ℕ → Option ℕ → Rr → Bool → Rr × Bool
rr_ticks zero current s resched = (s, resched)
rr_ticks (suc n) current s resched =
    let (s', resched') = rr_tick current s resched in rr_ticks n current s' resched'

rr_ticks-from :
    (n pid : ℕ) (s : Rr) (resched : Bool)
    → 1 < pid
    → s.current_ticks + n < 2 ^ 32
    → (rr_ticks n (some pid) s resched).1 ≡ (resched || (leb 1 n && leb 3 (s.current_ticks + n)))
unfolding rr_ticks rr_tick
rr_ticks-from zero pid s resched b h = ground arith
rr_ticks-from (suc n) pid s resched b h =
    let (s', resched') = rr_tick (some pid) s resched in
    let c : s'.current_ticks ≡ s.current_ticks + 1 = ground arith in
    rr_ticks-from n pid s' resched' b (omega arith) ∙ ground (arith, c)

rr_next-resets :
    (t u : Table) (s s' : Rr) (p : ℕ) → rr_next t s ≡ (some p, u, s') → s'.current_ticks ≡ 0
unfolding rr_next
rr_next-resets t u s s' p e = ground arith

-- The quantum of a process that `rr_next` has just picked is three ticks: with the flag clear, the
-- tick handler has set it after `n` ticks exactly when `n` is at least 3. The process is not the
-- idle process, whose pid is 1, and `n` fits the counter.
pub rr_quantum :
    (t u : Table) (s s' : Rr) (p pid n : ℕ)
    → rr_next t s ≡ (some p, u, s')
    → 1 < pid
    → n < 2 ^ 32
    → (rr_ticks n (some pid) s' false).1 ≡ leb 3 n
rr_quantum t u s s' p pid n e b h =
    let z = rr_next-resets t u s s' p e in
    rr_ticks-from n pid s' false b (omega arith) ∙ ground arith

-- While the idle process runs, or none, ticks leave the flag and the quantum's counter alone.
pub rr_idle :
    (n : ℕ) (current : Option ℕ) (s : Rr) (resched : Bool)
    → is_busy current ≡ false
    → ((rr_ticks n current s resched).1 ≡ resched)
      × ((rr_ticks n current s resched).0.current_ticks ≡ s.current_ticks)
unfolding rr_ticks rr_tick
rr_idle zero current s resched b = (refl, refl)
rr_idle (suc n) current s resched b =
    let (s', resched') = rr_tick current s resched in
    let (i, j) = rr_idle n current s' resched' b in
    let k : resched' ≡ resched = ground arith in
    let l : s'.current_ticks ≡ s.current_ticks = ground arith in (i ∙ k, j ∙ l)
