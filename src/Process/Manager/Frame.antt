-- ===== src/Process/Manager/Frame.antt =====
-- The stack that `process_create` prepares for the first switch to a process.
use mathlib.Core.Path.{subst}
use ares_os.Prelude.{ℕ, ◌+◌, ◌*◌, ◌^◌, ◌≤◌, ◌<◌, ◌≡◌, refl, sym, arith}
use ares_os.Process.Context.{poke, push_to}
use ares_os.Process.Manager.{first_frame}

-- The seven words that the frame writes.
abbrev framed : ℕ → ℕ → (ℕ → ℕ) → ℕ → ℕ
framed entry rsp memory = poke rsp 0 (
    poke (rsp + 8) 0 (
      poke (rsp + 16) 0
        (poke (rsp + 24) 0 (poke (rsp + 32) 0 (poke (rsp + 40) 0 (poke (rsp + 48) entry memory))))))

first_frame-framed :
    (entry rsp : ℕ) (memory : ℕ → ℕ)
    → rsp + 56 < 2 ^ 64
    → first_frame entry (rsp + 56, memory) ≡ (rsp, framed entry rsp memory)
unfolding first_frame
first_frame-framed entry rsp memory h =
    let e0 =
      push_to entry (rsp + 48) (rsp + 56) memory (rsp + 56, memory) (omega arith) (omega arith)
        refl in
    let e1 = push_to 0 (rsp + 40) (rsp + 48) _ _ (omega arith) (omega arith) e0 in
    let e2 = push_to 0 (rsp + 32) (rsp + 40) _ _ (omega arith) (omega arith) e1 in
    let e3 = push_to 0 (rsp + 24) (rsp + 32) _ _ (omega arith) (omega arith) e2 in
    let e4 = push_to 0 (rsp + 16) (rsp + 24) _ _ (omega arith) (omega arith) e3 in
    let e5 = push_to 0 (rsp + 8) (rsp + 16) _ _ (omega arith) (omega arith) e4 in
    push_to 0 rsp (rsp + 8) _ _ (omega arith) (omega arith) e5

abbrev pub IsFrame : ℕ → ℕ → (ℕ → ℕ) → ℕ × (ℕ → ℕ) → Type 0
IsFrame entry rsp memory (sp, after) =
    (sp ≡ rsp)
    × ((k : ℕ) → k < 6 → after (rsp + 8 * k) ≡ 0)
    × (after (rsp + 48) ≡ entry)
    × ((a : ℕ) → a < rsp → after a ≡ memory a)
    × ((a : ℕ) → rsp + 56 ≤ a → after a ≡ memory a)

-- The first frame of a process: seven words below the top of the stack, which is at `rsp + 56`. They
-- are six zeros for the registers that `context_switch` pops, and above them the entry point that it
-- returns to. Nothing is written below them or from the top on.
pub first_frame-entry :
    (entry rsp : ℕ) (memory : ℕ → ℕ)
    → rsp + 56 < 2 ^ 64
    → IsFrame entry rsp memory (first_frame entry (rsp + 56, memory))
first_frame-entry entry rsp memory h =
    subst (IsFrame entry rsp memory) (sym (first_frame-framed entry rsp memory h))
      (refl, (λ k l. ground arith), ground arith, (λ a l. ground arith), (λ a l. ground arith))
