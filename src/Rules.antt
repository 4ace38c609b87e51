-- ===== src/Rules.antt =====
-- packages/core/src/infrastructure/rules: conditions, actions, and the engine that joins them.
pub mod Condition
pub mod Actions
pub mod Engine
mod Tests
