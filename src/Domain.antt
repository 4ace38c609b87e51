-- ===== src/Domain.antt =====
-- The entities of packages/core/src/domain.
pub mod Alert
pub mod Cluster
pub mod Rule
pub mod Payload
