-- ===== src/Process/Queue/Tests.antt =====
-- The theorems on the queue at concrete tables.
use ares_os.Prelude.{◌+◌, ◌≡◌, refl, none, some, [], ◌∷◌, arith}
use ares_os.Process.Table.{Table, ready}
use ares_os.Process.Queue.{ProcessQueue, queue_init, queue_push, queue_pop, queue_remove}
use ares_os.Process.Queue.Rep.{IsQueue}
use ares_os.Process.Queue.Fifo.{
  Pushed, Popped, queue_init-IsQueue, queue_push-append, queue_pop-cons, queue_pop-nil,
}
use ares_os.Process.Queue.Walk.{Removed, queue_remove-remove}

abbrev table : Table
table p = record {
  pid = p + 1;
  state = ready;
  name = [];
  priority = 1;
  rsp = 0;
  rip = 0;
  rflags = 0;
  cr3 = 0;
  stack_base = 0;
  time_created = 0;
  total_ticks = 0;
  wake_tick = 0;
  next = some 7;
}

abbrev one : Table × ProcessQueue
one = queue_push table queue_init 5

abbrev two : Table × ProcessQueue
two = queue_push one.0 one.1 3

one-IsQueue : IsQueue one.0 one.1 (5 ∷ [])
one-IsQueue =
    (queue_push-append table queue_init [] 5 (queue_init-IsQueue table) refl (omega arith)).0

two-IsQueue : IsQueue two.0 two.1 (5 ∷ 3 ∷ [])
two-IsQueue = (queue_push-append one.0 one.1 (5 ∷ []) 3 one-IsQueue refl (omega arith)).0

pop_two : (queue_pop two.0 two.1).0 ≡ some 5
unfolding queue_pop queue_push queue_init
pop_two = refl

queue_push-append_example : Pushed one.0 (5 ∷ []) 3 two
queue_push-append_example = queue_push-append one.0 one.1 (5 ∷ []) 3 one-IsQueue refl (omega arith)

queue_pop-cons_example : Popped two.0 5 (3 ∷ []) (queue_pop two.0 two.1)
queue_pop-cons_example = queue_pop-cons two.0 two.1 5 (3 ∷ []) two-IsQueue

queue_pop-nil_example : queue_pop table queue_init ≡ (none, table, queue_init)
queue_pop-nil_example = queue_pop-nil table queue_init (queue_init-IsQueue table)

queue_remove-remove_example :
    (out : Table × ProcessQueue) × (queue_remove 65 two.0 two.1 5 ≡ some out)
    × Removed two.0 (5 ∷ 3 ∷ []) 5 out
queue_remove-remove_example = queue_remove-remove two.0 two.1 5 (5 ∷ 3 ∷ []) two-IsQueue
