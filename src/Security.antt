-- ===== src/Security.antt =====
-- internal/security: the checks on paths, file modes and certificate pins, and the TLS settings.
pub mod Paths
pub mod Modes
pub mod Pin
pub mod Tls
