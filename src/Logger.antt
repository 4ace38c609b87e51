-- ===== src/Logger.antt =====
-- packages/core/src/shared/logger: the wide event, its sampling and its redaction.
pub mod Json
pub mod Builder
pub mod Sampling
pub mod Redaction
mod Tests
