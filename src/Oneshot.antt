-- ===== src/Oneshot.antt =====
-- internal/oneshot: the dump that merges whole sources by time.
pub mod Heap
pub mod Merge
pub mod Sources
pub mod Closing
pub mod Dump
