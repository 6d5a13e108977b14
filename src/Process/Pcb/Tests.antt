-- ===== src/Process/Pcb/Tests.antt =====
-- The theorems on the slots at concrete tables.
use ares_os.Prelude.{ℕ, ◌+◌, ◌-◌, ◌^◌, ◌≡◌, refl, false, none, some, [], arith, ◌⊎◌}
use ares_os.Prelude.Lowest.{first_set}
use ares_os.Process.Table.{Table, ready}
use ares_os.Process.Pcb.{PcbTable, find_free_slot, pcb_alloc}
use ares_os.Process.Pcb.Slots.{
  is_free_slot, IsSlots, IsLowestSlot, IsGiven, given, pcb_alloc-lowest,
}

abbrev table : Table
table p = record {
  pid = p + 1;
  state = ready;
  name = [];
  priority = 1;
  rsp = 0;
  rip = 0;
  rflags = 0;
  cr3 = 0;
  stack_base = 0;
  time_created = 0;
  total_ticks = 0;
  wake_tick = 0;
  next = none;
}

abbrev fresh : PcbTable
fresh = record { entries = table; slot_free_map = 2 ^ 64 - 8; stacks = 0x200000 }

fresh-IsSlots : IsSlots fresh
fresh-IsSlots = omega arith

alloc_fresh : pcb_alloc fresh ≡ some (some 3, given fresh 3)
unfolding pcb_alloc find_free_slot given first_set
alloc_fresh = refl

pcb_alloc-lowest_example :
    (((j : ℕ) → is_free_slot fresh j ≡ false) × (pcb_alloc fresh ≡ some (none, fresh)))
    ⊎ ((i : ℕ) × IsLowestSlot fresh i
        × (pcb_alloc fresh ≡ some (some i, given fresh i))
        × IsGiven fresh i (given fresh i))
pcb_alloc-lowest_example = pcb_alloc-lowest fresh fresh-IsSlots
