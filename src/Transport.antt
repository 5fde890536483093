-- ===== src/Transport.antt =====
-- internal/transport: the disk spool, and the publisher that falls back to it.
pub mod Topics
pub mod Spool
pub mod Publisher
pub mod Mqtt
