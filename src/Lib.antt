-- ===== src/Lib.antt =====
-- ARES-OS is a kernel for x86-64 in C. This library models its memory allocators, its processes, its
-- schedulers, its file system, two of its drivers and its user accounts, and proves what they do.
--
-- Parts and files. Paths are those of the repository.
--  * Memory/Pmm.antt, memory/pmm.c: physical pages of 4 KiB. The static variables are the record `Pmm`,
--    and each function keeps its name; Pmm/Inv has the invariant, Pmm/Init, Pmm/Alloc, Pmm/Free and
--    Pmm/Drain the proofs.
--  * Memory/Heap.antt, memory/heap.c: the kernel heap, with its headers in a store from addresses to
--    records. Heap/Cells says which list of cells a chain of headers holds; Heap/Split, Malloc, Free,
--    Stats and Limits prove the operations.
--  * Process/Table.antt, process/pcb.h: process control blocks. A pointer to one is its index in the
--    array `pcb_table`, and NULL is `none`.
--  * Process/Queue.antt, process/queue.c: the queue that links control blocks by their field `next`.
--    Queue/Rep says which list a queue holds, Queue/Fifo and Queue/Walk prove the operations.
--  * Process/Pcb.antt, process/pcb.c: the table of control blocks with its bitmap of free slots. Pcb/Slots
--    is about allocation, Pcb/Lookup about the two searches.
--  * Process/Context.antt, process/switch.asm: the context switch, on the registers and the memory.
--  * Process/Manager.antt, process/process.c: creation, exit, kill and yield over a record `System` of
--    all globals. Manager/Create, Frame, Kill, Switch, Exit and Cycle prove them.
--  * Scheduler/Fcfs, Rr, Priority and Mlq.antt, the files of those names under scheduler/: the four
--    policies. Scheduler/Levels and Sorted carry the proofs that the two with levels share.
--  * Scheduler/Dispatch.antt, scheduler/scheduler.c: the dispatcher. A pointer to a table of operations
--    is the data type `Policy`. Dispatch/Fifo is what the process manager relies on.
--  * Drivers/Keyboard.antt, drivers/keyboard.c: the scancode decoder and its ring buffer. Keyboard/Keymap
--    has the tables, Keyboard/Ring the buffer, Keyboard/Layout the keys of a US keyboard row by row,
--    Keyboard/Keys and Keyboard/Modifiers the handler.
--  * Drivers/Rtc.antt, drivers/rtc.c: the real-time clock. Rtc/Digits is about the readings, Rtc/Format
--    about the text.
--  * Fs.antt, fs/aresfs.c: the file system. Fs/Bytes and Fs/Layout have the structures of the disk and
--    their bytes, Fs/Device the sector driver as a record of operations with laws, Fs/State the static
--    variables as the record `Fs`; Fs/Alloc, Inodes, Blocks, Dir, Names, Body, Mount, Files and Tree have
--    the functions, each part with its proofs below it.
--  * Security/Auth.antt, security/auth.c: user accounts, and Auth/Login on creation and login.
--  * Prelude: names of the libraries passed on, lists, finite sets as lists, bits of words, bitmaps.
--
-- How the parts interact: the file system takes the driver of the disk as a parameter, and passes it
-- blocks of 512 bytes; a driver in memory shows that its laws can hold. The process manager takes a slot
-- of the table and puts it into the active policy through the dispatcher; each policy holds queues that
-- link the entries of the same table, so that every operation takes and returns the table. `yield` and
-- `process_exit` call the assembly routine `context_switch`, and say where the processor goes on after
-- it: in the caller where the stack pointer is the one it was called with, and else in the process.
--
-- Numbers are natural numbers, with the wrap-around of the C types written out. The walks over the
-- links of a queue run on 65 rounds: a queue holds no process twice and there are 64, so that the walk
-- has ended by then. The loop that looks for the lowest set bit of a word runs on 64 rounds, which is
-- enough for a word that is not zero. The walks over the headers of the heap run on 131,073 rounds, one
-- more than the window has room for headers. The walk over a path runs on a round for each of its
-- characters, and the transfers of a file on a round for each byte. The other loops count, and are
-- recursions on the rounds left.
--
-- Not modelled: console output, the boot code and port access, floating point in calc/, and
-- so far the page tables, the disk driver, system calls, the editor, the shell and the interactive
-- login. A program that writes past the end of its payload is outside the model of the heap. A read of
-- the disk is a function of the state of the drive, and a read that fails changes no buffer, as in
-- drivers/ata.c, which copies a sector only once the drive offers it. The words that C functions keep on
-- a stack are left out; of the memory, the model has what the first frame of a process and the context
-- switch write. The linker's symbols, the address of the idle loop, the byte of the keyboard's port and
-- the registers of the CMOS are arguments.
pub mod Drivers
pub mod Fs
pub mod Memory
pub mod Prelude
pub mod Process
pub mod Scheduler
pub mod Security
