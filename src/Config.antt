-- ===== src/Config.antt =====
-- packages/core/src/shared/config/index.ts: the configuration, from the environment's variables.
pub mod Env
pub mod Secrets
pub mod Schema
pub mod Refine
pub mod Load
pub mod Words
pub mod Loaded
pub mod Key
mod Tests
