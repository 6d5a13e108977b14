-- ===== src/Scheduler/Fcfs/Order.antt =====
-- The order in which the first-come policy hands out processes.
use ares_os.Prelude.{
  ℕ, zero, suc, ◌<◌, ◌≡◌, refl, sym, false, some, List, [], ◌∷◌, ◌++◌, length, has, append_assoc,
  append-nil,
}
use mathlib.Core.Path.{subst, ap₂}
use ares_os.Process.Table.{Table, Ptr, max_processes}
use ares_os.Process.Queue.Rep.{IsQueue}
use ares_os.Process.Queue.Fifo.{queue_push-append, queue_pop-cons}
use ares_os.Scheduler.Fcfs.{Fcfs, fcfs_add, fcfs_next}

-- A client that adds the processes of a list in order.
pub add_all : Table → Fcfs → List ℕ → Table × Fcfs
add_all t s [] = (t, s)
add_all t s (p ∷ ps) = let (u, s') = fcfs_add t s p in add_all u s' ps

-- A client that asks `n` times for the next process.
pub next_all : ℕ → Table → Fcfs → List Ptr
next_all zero t s = []
next_all (suc n) t s = let (r, u, s') = fcfs_next t s in r ∷ next_all n u s'

abbrev pub all_some : List ℕ → List Ptr
all_some [] = []
all_some (x ∷ xs) = some x ∷ all_some xs

next_all-contents :
    (xs : List ℕ) (t : Table) (s : Fcfs)
    → IsQueue t s.queue xs
    → next_all (length xs) t s ≡ all_some xs
unfolding next_all fcfs_next
next_all-contents [] t s v = refl
next_all-contents (x ∷ xs) t s v =
    let (r, w, same, spare) = queue_pop-cons t s.queue x xs v in
    let (r', u, s') = fcfs_next t s in ap₂ ◌∷◌ r (next_all-contents xs u s' w)

-- None of the processes is in the queue yet, and none comes twice.
abbrev pub IsNew : List ℕ → List ℕ → Type 0
IsNew xs [] = Unit
IsNew xs (p ∷ ps) = (has p xs ≡ false) × (p < max_processes) × IsNew (xs ++ (p ∷ [])) ps

add_all-append :
    (ps xs : List ℕ) (t : Table) (s : Fcfs)
    → IsQueue t s.queue xs
    → IsNew xs ps
    → let (u, s') = add_all t s ps in IsQueue u s'.queue (xs ++ ps)
unfolding add_all fcfs_add
add_all-append [] xs t s v h = subst (IsQueue t s.queue) (sym (append-nil xs)) v
add_all-append (p ∷ ps) xs t s v h =
    let (w, same, spare) = queue_push-append t s.queue xs p v h.0 h.1 in
    let (u, s') = fcfs_add t s p in
    let (u', s'') = add_all u s' ps in
    subst (IsQueue u' s''.queue) (append_assoc xs (p ∷ []) ps)
      (add_all-append ps (xs ++ (p ∷ [])) u s' w h.2)

-- First come, first served: processes added to a queue that holds `xs`, none of them in it and none
-- twice, are handed out after `xs` and in the order in which they were added.
pub fcfs_order :
    (t : Table) (s : Fcfs) (xs ps : List ℕ)
    → IsQueue t s.queue xs
    → IsNew xs ps
    → let (u, s') = add_all t s ps in next_all (length (xs ++ ps)) u s' ≡ all_some (xs ++ ps)
fcfs_order t s xs ps v h =
    let (u, s') = add_all t s ps in next_all-contents (xs ++ ps) u s' (add_all-append ps xs t s v h)
