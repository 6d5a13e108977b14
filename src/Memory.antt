-- ===== src/Memory.antt =====
-- memory/: the page allocator.
pub mod Pmm
pub mod Heap
