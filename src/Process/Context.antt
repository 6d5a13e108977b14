-- ===== src/Process/Context.antt =====
-- process/switch.asm: `context_switch`, with the registers and the memory that it moves words between.
-- The memory is by addresses of 64-bit words.
use ares_os.Prelude.{
  ℕ, ◌+◌, ◌-◌, ◌%◌, ◌^◌, ◌<◌, ◌≡◌, refl, ◌∙◌, ap, true, none, some, arith, ◌==◌, if◌then◌else◌,
  Bool-cases, inl, inr,
}
use ares_os.Process.Table.{Table, Ptr, write}

abbrev pub Memory : Type 0
Memory = ℕ → ℕ

abbrev pub poke : ℕ → ℕ → Memory → Memory
poke addr v memory a = if addr == a then v else memory a

-- `*(--stack) = v`, and the instruction `push`
abbrev pub push_word : ℕ → ℕ × Memory → ℕ × Memory
push_word v (stack, memory) =
    let stack' = (stack + 2 ^ 64 - 8) % 2 ^ 64 in (stack', poke stack' v memory)

-- The registers that the switch saves, and the stack pointer at its first instruction: the word
-- there is the address that it was called from.
pub record Cpu : Type 0 where
  pub rsp : ℕ
  pub rbp : ℕ
  pub rbx : ℕ
  pub r12 : ℕ
  pub r13 : ℕ
  pub r14 : ℕ
  pub r15 : ℕ

-- `push rbp` to `push r15`
unfoldable pub push_registers : Cpu → Memory → ℕ × Memory
push_registers cpu memory = push_word cpu.r15 (
    push_word cpu.r14 (
      push_word cpu.r13
        (push_word cpu.r12 (push_word cpu.rbx (push_word cpu.rbp (cpu.rsp, memory))))))

-- `pop r15` to `pop rbp`
unfoldable pub pop_registers : ℕ → Memory → Cpu
pop_registers rsp memory = record {
  rsp = (rsp + 48) % 2 ^ 64;
  rbp = memory ((rsp + 40) % 2 ^ 64);
  rbx = memory ((rsp + 32) % 2 ^ 64);
  r12 = memory ((rsp + 24) % 2 ^ 64);
  r13 = memory ((rsp + 16) % 2 ^ 64);
  r14 = memory ((rsp + 8) % 2 ^ 64);
  r15 = memory (rsp % 2 ^ 64);
}

-- `mov [rax + 40], rsp`
unfoldable pub set_rsp : Table → ℕ → ℕ → Table
unfolding write
set_rsp t p rsp = write t p (record (t p) { rsp = rsp })

-- The first argument is the global `current_process`, as it stands at the call.
unfoldable pub context_switch : Ptr → ℕ → Table → Cpu → Memory → Table × Cpu × Memory
context_switch current next t cpu memory =
    let (sp, memory') = push_registers cpu memory in
    let u : Table = elim current [ none ↦ t | some c ↦ set_rsp t c sp ] in
    (u, pop_registers (u next).rsp memory', memory')

pub push_word-poke :
    (v a : ℕ) (memory : Memory)
    → a + 8 < 2 ^ 64
    → push_word v (a + 8, memory) ≡ (a, poke a v memory)
push_word-poke v a memory h =
    let e : (a + 8 + 2 ^ 64 - 8) % 2 ^ 64 ≡ a = omega arith in ap (λ k. (k, poke k v memory)) e

pub push_to :
    (v a b : ℕ) (memory : Memory) (r : ℕ × Memory)
    → b ≡ a + 8
    → a + 8 < 2 ^ 64
    → r ≡ (b, memory)
    → push_word v r ≡ (a, poke a v memory)
push_to v a b memory r e h k =
    ap (push_word v) (k ∙ ap (λ t. (t, memory)) e) ∙ push_word-poke v a memory h

-- The six words of the save area.
abbrev pub pushed : Cpu → ℕ → Memory → Memory
pushed cpu sp memory = poke sp cpu.r15 (
    poke (sp + 8) cpu.r14 (
      poke (sp + 16) cpu.r13
        (poke (sp + 24) cpu.r12 (poke (sp + 32) cpu.rbx (poke (sp + 40) cpu.rbp memory)))))

module _ (cpu : Cpu) (sp : ℕ) (memory : Memory) where
  push_registers-pushed :
      cpu.rsp ≡ sp + 48 → sp + 48 < 2 ^ 64 → push_registers cpu memory ≡ (sp, pushed cpu sp memory)
  unfolding push_registers
  push_registers-pushed e h =
      let e0 =
        push_to cpu.rbp (sp + 40) cpu.rsp memory (cpu.rsp, memory) (omega arith) (omega arith)
          refl in
      let e1 = push_to cpu.rbx (sp + 32) (sp + 40) _ _ (omega arith) (omega arith) e0 in
      let e2 = push_to cpu.r12 (sp + 24) (sp + 32) _ _ (omega arith) (omega arith) e1 in
      let e3 = push_to cpu.r13 (sp + 16) (sp + 24) _ _ (omega arith) (omega arith) e2 in
      let e4 = push_to cpu.r14 (sp + 8) (sp + 16) _ _ (omega arith) (omega arith) e3 in
      push_to cpu.r15 sp (sp + 8) _ _ (omega arith) (omega arith) e4

  pop_registers-pushed :
      cpu.rsp ≡ sp + 48 → sp + 48 < 2 ^ 64 → pop_registers sp (pushed cpu sp memory) ≡ cpu
  unfolding pop_registers
  pop_registers-pushed e h =
      let m : Memory = pushed cpu sp memory in
      let rsp : (sp + 48) % 2 ^ 64 ≡ cpu.rsp = omega arith in
      let at : (k : ℕ) → sp + k < 2 ^ 64 → m ((sp + k) % 2 ^ 64) ≡ m (sp + k) =
        λ k l. let q : (sp + k) % 2 ^ 64 ≡ sp + k = omega arith in ap m q in
      let bp : m (sp + 40) ≡ cpu.rbp = ground arith in
      let bx : m (sp + 32) ≡ cpu.rbx = ground arith in
      let b12 : m (sp + 24) ≡ cpu.r12 = ground arith in
      let b13 : m (sp + 16) ≡ cpu.r13 = ground arith in
      let b14 : m (sp + 8) ≡ cpu.r14 = ground arith in
      let b15 : m sp ≡ cpu.r15 = ground arith in
      let low : sp % 2 ^ 64 ≡ sp = omega arith in
      let p40 = at 40 (omega arith) ∙ bp in
      let p32 = at 32 (omega arith) ∙ bx in
      let p24 = at 24 (omega arith) ∙ b12 in
      let p16 = at 16 (omega arith) ∙ b13 in
      let p8 = at 8 (omega arith) ∙ b14 in
      let p0 = ap m low ∙ b15 in
      λ i. record {
        rsp = rsp i;
        rbp = p40 i;
        rbx = p32 i;
        r12 = p24 i;
        r13 = p16 i;
        r14 = p8 i;
        r15 = p0 i;
      }

  -- With the next process already the current one, the switch saves the stack pointer in the entry
  -- of the next process and loads it from there: every register is what it was, and it returns to
  -- its caller.
  pub context_switch_self :
      (t : Table) (p : ℕ)
      → cpu.rsp ≡ sp + 48
      → sp + 48 < 2 ^ 64
      → context_switch (some p) p t cpu memory ≡ (set_rsp t p sp, cpu, pushed cpu sp memory)
  unfolding context_switch set_rsp write
  context_switch_self t p e h = rw (push_registers-pushed e h) (
      let same : (p == p) ≡ true = ground arith in
      rw same (ap (λ c. (set_rsp t p sp, c, pushed cpu sp memory)) (pop_registers-pushed e h)))

pub set_rsp-next : (t : Table) (p sp : ℕ) (a : ℕ) → (set_rsp t p sp a).next ≡ (t a).next
unfolding set_rsp write
set_rsp-next t p sp a = elim (Bool-cases (p == a)) [
  | inl e ↦ let e' : p ≡ a = ground arith in rw (e, e')
  | inr e ↦ rw e
]

pub set_rsp-state : (t : Table) (p sp : ℕ) (a : ℕ) → (set_rsp t p sp a).state ≡ (t a).state
unfolding set_rsp write
set_rsp-state t p sp a = elim (Bool-cases (p == a)) [
  | inl e ↦ let e' : p ≡ a = ground arith in rw (e, e')
  | inr e ↦ rw e
]

pub set_rsp_self : (t : Table) (p sp : ℕ) → (set_rsp t p sp p).rsp ≡ sp
unfolding set_rsp write
set_rsp_self t p sp = ground arith
