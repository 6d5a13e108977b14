-- ===== src/Process/Manager/Switch.antt =====
-- The switch that `yield` and `process_exit` end in: both make the next process the current one first.
use ares_os.Prelude.{ℕ, ◌+◌, ◌^◌, ◌<◌, ◌≡◌, refl, true, some, arith, ◌==◌}
use ares_os.Process.Context.{Cpu, set_rsp, pushed, context_switch_self}
use ares_os.Process.Manager.{System, returns, switch_to}

-- The caller's stack has room for the six registers, above address `sp`.
pub record HasRoom (cpu : Cpu) (sp : ℕ) : Type 0 where
  pub top : cpu.rsp ≡ sp + 48
  pub bound : sp + 48 < 2 ^ 64

module _ (s : System) (p sp : ℕ) where
  -- The system with the stack pointer of the caller in the entry of the next process.
  abbrev pub overwritten : System
  overwritten = record s {
    pcbs = record (s.pcbs) { entries = set_rsp s.pcbs.entries p sp };
    memory = pushed s.cpu sp s.memory;
  }

  -- A switch to the process that is already the current one returns to its caller, and leaves the
  -- stack pointer of the caller in the entry of that process.
  pub switch_to_self :
      s.current_process ≡ some p → HasRoom s.cpu sp → switch_to s p ≡ (returns, overwritten)
  unfolding switch_to
  switch_to_self e v = rw e (
      rw (context_switch_self s.cpu sp s.memory s.pcbs.entries p v.top v.bound)
        (let same : (s.cpu.rsp == s.cpu.rsp) ≡ true = ground arith in rw same refl))
