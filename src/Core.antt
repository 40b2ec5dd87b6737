-- ===== src/Core.antt =====
-- packages/core/src
pub mod Duration
pub mod Config
pub mod Lock
pub mod Contract
pub mod Storage
pub mod Context
pub mod Executor
pub mod KeepAlive
pub mod Tracking
pub mod Health
