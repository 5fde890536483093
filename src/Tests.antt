-- ===== src/Tests.antt =====
-- Runs of the definitions at fixed inputs, and the theorems applied to such inputs.
mod Pipeline
mod Transport
mod Parser
mod Source
mod Security
mod Oneshot
mod Config
mod Mqtt
mod Command
