-- ===== src/Process/Queue.antt =====
-- process/queue.c: the intrusive FIFO of process control blocks. A queue links its entries by their
-- field `next`, so each operation takes and returns the table. `*q` is passed by value and
-- returned. The two loops over the links run on fuel; `none` means that it ran out.
pub mod Rep
pub mod Fifo
pub mod Walk
mod Tests
use ares_os.Prelude.{
  ℕ, zero, suc, ◌+◌, ◌-◌, ◌%◌, ◌^◌, Bool, true, false, Option, none, some, ◌==◌, if◌then◌else◌,
}
use ares_os.Process.Table.{Table, Ptr, set_next}

pub record ProcessQueue : Type 0 where
  pub head : Ptr
  pub tail : Ptr
  pub count : ℕ

-- `count` is a `uint32_t`.
abbrev pub inc32 : ℕ → ℕ
inc32 x = (x + 1) % 2 ^ 32

abbrev pub dec32 : ℕ → ℕ
dec32 x = (x + 2 ^ 32 - 1) % 2 ^ 32

unfoldable pub queue_init : ProcessQueue
queue_init = record { head = none; tail = none; count = 0 }

unfoldable pub queue_push : Table → ProcessQueue → ℕ → Table × ProcessQueue
queue_push t q proc =
    let t' = set_next t proc none in
    elim q.tail [
      | some last ↦
          (set_next t' last (some proc), record q { tail = some proc; count = inc32 q.count })
      | none ↦ (t', record { head = some proc; tail = some proc; count = inc32 q.count })
    ]

unfoldable pub queue_pop : Table → ProcessQueue → Ptr × Table × ProcessQueue
queue_pop t q = elim q.head [
  | none ↦ (none, t, q)
  | some proc ↦
      let next = (t proc).next in
      (
        some proc,
        set_next t proc none,
        record {
          head = next;
          tail = elim next [ none ↦ none | some _ ↦ q.tail ];
          count = dec32 q.count;
        },
      )
]

-- the body of `if (curr == proc)`
pub unlink : Table → ProcessQueue → Ptr → ℕ → Table × ProcessQueue
unlink t q prev curr =
    let next = (t curr).next in
    let t' : Table = elim prev [ none ↦ t | some p ↦ set_next t p next ] in
    (
      set_next t' curr none,
      record {
        head = elim prev [ none ↦ next | some _ ↦ q.head ];
        tail = elim next [ none ↦ prev | some _ ↦ q.tail ];
        count = dec32 q.count;
      },
    )

pub remove_loop :
    ℕ → Table → ProcessQueue → (proc : ℕ) → (prev curr : Ptr) → Option (Table × ProcessQueue)
remove_loop zero t q proc prev curr = none
remove_loop (suc fuel) t q proc prev none = some (t, q)
remove_loop (suc fuel) t q proc prev (some c) =
    let rest = remove_loop fuel t q proc (some c) (t c).next in
    if c == proc then some (unlink t q prev c) else rest

pub queue_remove : ℕ → Table → ProcessQueue → ℕ → Option (Table × ProcessQueue)
queue_remove fuel t q proc = remove_loop fuel t q proc none q.head

pub queue_peek : ProcessQueue → Ptr
queue_peek q = q.head

pub contains_loop : ℕ → Table → ℕ → Ptr → Option Bool
contains_loop zero t proc curr = none
contains_loop (suc fuel) t proc none = some false
contains_loop (suc fuel) t proc (some c) =
    let rest = contains_loop fuel t proc (t c).next in if c == proc then some true else rest

pub queue_contains : ℕ → Table → ProcessQueue → ℕ → Option Bool
queue_contains fuel t q proc = contains_loop fuel t proc q.head
