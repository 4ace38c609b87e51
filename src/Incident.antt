-- ===== src/Incident.antt =====
-- packages/core/src/application/use-cases/process-incident.use-case.ts: the pipeline that every cluster
-- of alerts runs through, over the ports of domain/ports.
pub mod Calls
pub mod Exec
pub mod Process
pub mod Pipeline
pub mod Lifecycle
pub mod Suppressed
pub mod Tests
