-- ===== src/Process/Table.antt =====
-- process/pcb.h: the process control block, and the array `pcb_table` as a store. A `pcb_t *` is
-- the index of its entry, and `NULL` is `none`.
use ares_os.Prelude.{
  ℕ, Option, none, List, ◌==◌, if◌then◌else◌, ◌≡◌, ◌∙◌, arith, false, inl, inr, Bool-cases,
}

abbrev pub max_processes : ℕ
max_processes = 64

abbrev pub process_name_max : ℕ
process_name_max = 24

pub data ProcessState : Type 0 where
  embryo ready running blocked terminated : ProcessState

abbrev pub Ptr : Type 0
Ptr = Option ℕ

pub record Pcb : Type 0 where
  pub pid : ℕ
  pub state : ProcessState
  pub name : List ℕ
  pub priority : ℕ
  pub rsp : ℕ
  pub rip : ℕ
  pub rflags : ℕ
  pub cr3 : ℕ
  pub stack_base : ℕ
  pub time_created : ℕ
  pub total_ticks : ℕ
  pub wake_tick : ℕ
  pub next : Ptr

abbrev pub Table : Type 0
Table = ℕ → Pcb

unfoldable pub write : Table → ℕ → Pcb → Table
write t p c q = if p == q then c else t q

-- `p->next = q` and `p->state = s`
unfoldable pub set_next : Table → ℕ → Ptr → Table
unfolding write
set_next t p q = write t p (record (t p) { next = q })

unfoldable pub set_state : Table → ℕ → ProcessState → Table
unfolding write
set_state t p s = write t p (record (t p) { state = s })

-- Two tables that differ in the links at most.
abbrev pub SameButLinks : Table → Table → Type 0
SameButLinks t u = (p : ℕ) → record (u p) { next = none } ≡ record (t p) { next = none }

pub SameButLinks-trans : (t u v : Table) → SameButLinks t u → SameButLinks u v → SameButLinks t v
SameButLinks-trans t u v h k p = k p ∙ h p

pub set_next-SameButLinks : (t : Table) (a : ℕ) (r : Ptr) → SameButLinks t (set_next t a r)
unfolding set_next
set_next-SameButLinks t a r p = elim (Bool-cases (a == p)) [
  | inl e ↦ let e' : a ≡ p = ground arith in rw (e, e')
  | inr e ↦ rw e
]

pub set_next_self : (t : Table) (a : ℕ) (r : Ptr) → (set_next t a r a).next ≡ r
unfolding set_next
set_next_self t a r = ground arith

pub set_next_ne : (t : Table) (a : ℕ) (r : Ptr) (b : ℕ) → (a == b) ≡ false → set_next t a r b ≡ t b
unfolding set_next
set_next_ne t a r b e = rw e

pub set_state-next :
    (t : Table) (p : ℕ) (s : ProcessState) (a : ℕ) → (set_state t p s a).next ≡ (t a).next
unfolding set_state write
set_state-next t p s a = elim (Bool-cases (p == a)) [
  | inl e ↦ let e' : p ≡ a = ground arith in rw (e, e')
  | inr e ↦ rw e
]

pub set_state_self : (t : Table) (p : ℕ) (s : ProcessState) → (set_state t p s p).state ≡ s
unfolding set_state write
set_state_self t p s = ground arith
