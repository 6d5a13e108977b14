-- ===== src/Process/Manager/Cycle.antt =====
-- `yield` under the first-come and the round-robin policy: which process is the current one, and which
-- one the processor runs.
use mathlib.Core.Path.{subst}
use ares_os.Prelude.{
  ℕ, zero, suc, ◌<◌, ◌≡◌, refl, sym, ap, ◌∙◌, false, Option, none, some, List, [], ◌∷◌, ◌++◌, has,
  length, append-nil, append_assoc,
}
use ares_os.Process.Table.{
  Table, Ptr, ready, running, set_state, set_state-next, set_state_self, max_processes,
}
use ares_os.Process.Context.{set_rsp, set_rsp-next, set_rsp-state, set_rsp_self}
use ares_os.Process.Manager.{System, returns, with_table, yield, yield_to_next}
use ares_os.Process.Manager.Switch.{HasRoom, overwritten, switch_to_self}
use ares_os.Scheduler.Dispatch.{Scheduler, scheduler_add, scheduler_next}
use ares_os.Scheduler.Dispatch.Fifo.{
  IsFifo, IsFifo-frame, IsFifo-Distinct, IsFifo-entries, scheduler_add-append, scheduler_next-Front,
}

-- The processes that are ready, in the order of the queue, with the current process last.
pub record IsCycle (s : System) (xs : List ℕ) : Type 0 where
  pub others : List ℕ
  pub current : ℕ
  pub split : xs ≡ others ++ (current ∷ [])
  pub runs : s.current_process ≡ some current
  pub waits : IsFifo s.pcbs.entries s.scheduler others
  pub apart : has current others ≡ false
  pub inside : current < max_processes

module _ (s : System) (c sp : ℕ) where
  -- the table and the scheduler after the current process was put back
  abbrev put_back : Table × Scheduler
  put_back = scheduler_add (set_state s.pcbs.entries c ready) s.scheduler c

  abbrev taken : Ptr × Table × Scheduler
  taken = scheduler_next put_back.0 put_back.1

  abbrev elected : ℕ → System
  elected y = record (with_table s (set_state taken.1 y running) taken.2) {
    current_process = some y;
  }

  abbrev yielded : ℕ → System
  yielded y = overwritten (elected y) y sp

  yield-yielded :
      (y : ℕ)
      → s.current_process ≡ some c
      → taken.0 ≡ some y
      → HasRoom s.cpu sp
      → yield s ≡ some (returns, yielded y)
  unfolding yield yield_to_next
  yield-yielded y e f v =
      rw (e, yield)
        (rw (f, yield_to_next) (ap (λ r. some r) (switch_to_self (elected y) y sp refl v)))

-- What a yield does: the process at the front becomes the current one and is marked as running, the
-- one that was current comes last, and the call returns on the stack of its caller, whose stack
-- pointer is then in the entry of the new current process.
abbrev pub Yielded : System → ℕ → List ℕ → ℕ → System → Type 0
Yielded s y ys sp s' =
    (yield s ≡ some (returns, s'))
    × (s'.current_process ≡ some y)
    × IsCycle s' (ys ++ (y ∷ []))
    × ((s'.pcbs.entries y).state ≡ running)
    × ((s'.pcbs.entries y).rsp ≡ sp)
    × (s'.cpu ≡ s.cpu)

-- A yield makes the process at the front the current one and marks it as running, and puts the one
-- that was current at the end of the queue. The processor does not go on with it: `current_process`
-- is set before `context_switch` saves the stack pointer, so that the call returns to its caller with
-- the registers it had, and the stack pointer that the entry of the new current process held is
-- replaced by the caller's. This is under the first-come and the round-robin policy, where the
-- caller's stack has room for the registers.
pub yield-next :
    (s : System) (y : ℕ) (ys : List ℕ) (sp : ℕ)
    → IsCycle s (y ∷ ys)
    → HasRoom s.cpu sp
    → (s' : System) × Yielded s y ys sp s'
yield-next s y ys sp v room =
    let c = v.current in
    let t = set_state s.pcbs.entries c ready in
    let w =
      IsFifo-frame s.pcbs.entries t s.scheduler v.others
        (λ a h. set_state-next s.pcbs.entries c ready a) v.waits in
    let (full, same) = scheduler_add-append t s.scheduler v.others c w v.apart v.inside in
    let (u, p) = scheduler_add t s.scheduler c in
    let full' : IsFifo u p (y ∷ ys) = subst (IsFifo u p) (sym v.split) full in
    let (r, rest, same') = scheduler_next-Front u p y ys full' in
    let (r', u', p') = scheduler_next u p in
    let w' = set_state u' y running in
    let links : (a : ℕ) → (set_rsp w' y sp a).next ≡ (u' a).next =
      λ a. set_rsp-next w' y sp a ∙ set_state-next u' y running a in
    (
      yielded s c sp y,
      (
        yield-yielded s c sp y v.runs r room,
        refl,
        record {
          others = ys;
          current = y;
          split = refl;
          runs = refl;
          waits = IsFifo-frame u' (set_rsp w' y sp) p' ys (λ a h. links a) rest;
          apart = (IsFifo-Distinct u p (y ∷ ys) full').0;
          inside = (IsFifo-entries u p (y ∷ ys) full').0;
        },
        set_rsp-state w' y sp y ∙ set_state_self u' y running,
        set_rsp_self w' y sp,
        refl,
      ),
    )

-- `n` yields in a row by one caller, each of which returns to it, and the processes that are current
-- after each of them.
pub yields : ℕ → System → Option (List ℕ × System)
yields zero s = some ([], s)
yields (suc n) s = elim (yield s) [
  | some (returns, s') ↦ elim (yields n s') [
    | none ↦ none
    | some (ps, s'') ↦ elim s'.current_process [ none ↦ none | some p ↦ some (p ∷ ps, s'') ]
  ]
  | _ ↦ none
]

yields-suc :
    (n : ℕ) (s s' s'' : System) (p : ℕ) (ps : List ℕ)
    → yield s ≡ some (returns, s')
    → s'.current_process ≡ some p
    → yields n s' ≡ some (ps, s'')
    → yields (suc n) s ≡ some (p ∷ ps, s'')
unfolding yields
yields-suc n s s' s'' p ps e c f = rw (e, yields) (rw (f) (rw c refl))

-- What `n` yields in a row leave, when `xs` are current in turn.
abbrev pub Turned : System → ℕ → List ℕ → List ℕ → System → Type 0
Turned s n xs ys s' = (yields n s ≡ some (xs, s')) × IsCycle s' ys × (s'.cpu ≡ s.cpu)

yields-turns :
    (ys zs : List ℕ) (s : System) (sp : ℕ)
    → IsCycle s (ys ++ zs)
    → HasRoom s.cpu sp
    → (s' : System) × Turned s (length ys) ys (zs ++ ys) s'
unfolding yields
yields-turns [] zs s sp v room = (s, (refl, subst (IsCycle s) (sym (append-nil zs)) v, refl))
yields-turns (y ∷ ys) zs s sp v room =
    let (s', (e, c, w, state, saved, same)) = yield-next s y (ys ++ zs) sp v room in
    let (s'', (f, w', same')) =
      yields-turns ys (zs ++ (y ∷ [])) s' sp (subst (IsCycle s') (append_assoc ys zs (y ∷ [])) w)
        (subst (λ c. HasRoom c sp) (sym same) room) in
    (
      s'',
      (
        yields-suc (length ys) s s' s'' y ys e c f,
        subst (IsCycle s'') (append_assoc zs (y ∷ []) ys) w',
        same' ∙ same,
      ),
    )

-- As many yields in a row as there are processes ready make each of them the current process once, in
-- the order of the queue with the current process last, and lead to the same order. All of them are
-- made by one caller: each returns to it, and at the end the registers are what they were at the
-- beginning. This is under the first-come and the round-robin policy, where the caller's stack has
-- room for the registers.
pub yields-IsCycle :
    (s : System) (xs : List ℕ) (sp : ℕ)
    → IsCycle s xs
    → HasRoom s.cpu sp
    → (s' : System) × Turned s (length xs) xs xs s'
yields-IsCycle s xs sp v room =
    yields-turns xs [] s sp (subst (IsCycle s) (sym (append-nil xs)) v) room
