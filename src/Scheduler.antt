-- ===== src/Scheduler.antt =====
-- scheduler/: the four policies and the dispatcher.
pub mod Stats
pub mod Levels
pub mod Sorted
pub mod Fcfs
pub mod Rr
pub mod Priority
pub mod Mlq
pub mod Dispatch
mod Tests
