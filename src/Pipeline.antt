-- ===== src/Pipeline.antt =====
-- internal/pipeline: the ring buffer, the batcher and the rate limiter.
pub mod Ring
pub mod Queue
pub mod Batcher
pub mod Rate
pub mod Serialize
