-- ===== src/Process.antt =====
-- process/: process control blocks, the intrusive queue, the process manager.
pub mod Manager
pub mod Context
pub mod Table
pub mod Queue
pub mod Pcb
