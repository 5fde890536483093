-- ===== src/Source.antt =====
-- internal/source: the log inputs.
pub mod Reader
pub mod File
pub mod Journal
pub mod Offsets
pub mod KMsg
pub mod Tail
