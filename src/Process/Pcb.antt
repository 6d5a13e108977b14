-- ===== src/Process/Pcb.antt =====
-- process/pcb.c: the array of control blocks and its bitmap of free slots, a `uint64_t`. The static
-- variables are the fields of `PcbTable`; slots are pointers (`Table`).
pub mod Slots
pub mod Lookup
mod Tests
use ares_os.Prelude.{
  ℕ, zero, suc, ◌+◌, ◌-◌, ◌*◌, ◌/◌, ◌%◌, ◌^◌, Bool, true, false, Option, none, some, List, [], ◌∷◌,
  ◌++◌, ◌==◌, ◌&&◌, not, ltb, leb, if◌then◌else◌, length,
}
use Prim.Native.String.{String}
use ares_os.Prelude.Lowest.{first_set}
use ares_os.Prelude.Word.{set_bit, clear_bit}
use ares_os.Process.Table.{
  Table, Ptr, Pcb, ProcessState, embryo, ready, running, blocked, terminated, write, set_state,
  max_processes,
}

abbrev pub stack_size : ℕ
stack_size = 4096

abbrev pub priority_normal : ℕ
priority_normal = 1

-- `stacks` is the address of the static array `process_stacks`.
pub record PcbTable : Type 0 where
  pub entries : Table
  pub slot_free_map : ℕ
  pub stacks : ℕ

-- `for (i = 0; i < MAX_PROCESSES; i++)`: the first `n` entries are reset.
unfoldable pub reset_entries : ℕ → Table → Table
unfolding write
reset_entries zero t = t
reset_entries (suc i) t =
    let u = reset_entries i t in
    write u i (record (u i) { pid = 0; state = terminated; next = none })

unfoldable pub pcb_init_table : PcbTable → PcbTable
unfolding reset_entries
pcb_init_table m = record m {
  entries = reset_entries max_processes m.entries;
  slot_free_map = 2 ^ 64 - 1;
}

-- `some none` is the return value -1.
pub find_free_slot : PcbTable → Option (Option ℕ)
find_free_slot m =
    if m.slot_free_map == 0
    then some none
    else elim (first_set 64 m.slot_free_map 0) [ none ↦ none | some i ↦ some (some i) ]

pub mark_slot_used : PcbTable → ℕ → PcbTable
mark_slot_used m idx = record m { slot_free_map = clear_bit 64 m.slot_free_map idx }

pub mark_slot_free : PcbTable → ℕ → PcbTable
mark_slot_free m idx = record m { slot_free_map = set_bit m.slot_free_map idx }

-- `stack_base` is the end of the slot's stack; the name is left as it is.
abbrev pub embryo_of : PcbTable → ℕ → Pcb
embryo_of m idx = record (m.entries idx) {
  pid = 0;
  state = embryo;
  priority = priority_normal;
  rsp = 0;
  rip = 0;
  rflags = 0;
  cr3 = 0;
  stack_base = (m.stacks + idx * stack_size + stack_size) % 2 ^ 64;
  time_created = 0;
  total_ticks = 0;
  wake_tick = 0;
  next = none;
}

pub pcb_alloc : PcbTable → Option (Ptr × PcbTable)
unfolding write
pcb_alloc m = elim (find_free_slot m) [
  | none ↦ none
  | some none ↦ some (none, m)
  | some (some idx) ↦
      some (
        some idx,
        record (mark_slot_used m idx) { entries = write m.entries idx (embryo_of m idx) },
      )
]

-- A pointer is the index that the subtraction `pcb - pcb_table` gives.
pub pcb_free : PcbTable → Ptr → PcbTable
unfolding set_state
pcb_free m none = m
pcb_free m (some idx) =
    if leb max_processes idx
    then m
    else mark_slot_free (record m { entries = set_state m.entries idx terminated }) idx

-- `state != PROCESS_EMBRYO && state != PROCESS_TERMINATED`
abbrev pub is_active : Pcb → Bool
is_active p = elim p.state [ embryo ↦ false | terminated ↦ false | _ ↦ true ]

-- `for (i = 0; i < MAX_PROCESSES; i++)`, with the rounds left
pub by_pid_loop : ℕ → ℕ → Table → ℕ → Ptr
by_pid_loop zero i t pid = none
by_pid_loop (suc n) i t pid =
    if ((t i).pid == pid) && is_active (t i) then some i else by_pid_loop n (i + 1) t pid

pub pcb_by_pid : PcbTable → ℕ → Ptr
pcb_by_pid m pid = by_pid_loop max_processes 0 m.entries pid

-- `for (i = 0; i < MAX_PROCESSES && count < max; i++)`; `buf[0]` to `buf[count - 1]` are returned.
pub enum_loop : ℕ → ℕ → Table → (max : ℕ) → List ℕ → List ℕ
enum_loop zero i t max buf = buf
enum_loop (suc n) i t max buf =
    if ltb (length buf) max
    then enum_loop n (i + 1) t max (if is_active (t i) then buf ++ (i ∷ []) else buf)
    else buf

pub pcb_enum_active : PcbTable → (max : ℕ) → List ℕ
pcb_enum_active m max = enum_loop max_processes 0 m.entries max []

pub process_state_str : ProcessState → String
process_state_str embryo = "EMBRYO"
process_state_str ready = "READY"
process_state_str running = "RUNNING"
process_state_str blocked = "BLOCKED"
process_state_str terminated = "TERM"

pub process_priority_str : ℕ → String
process_priority_str p =
    if p == 0
    then "LOW"
    else if p == 1
    then "NORMAL"
    else if p == 2
    then "HIGH"
    else if p == 3
    then "RT"
    else "?"
