-- ===== src/Ingest.antt =====
-- packages/ingest: the sources that poll for alerts.
pub mod Subscriber
pub mod Mapping
pub mod Keyed
pub mod Runner
pub mod Prometheus
pub mod Schema
pub mod Config
pub mod Service
mod Tests
mod RunnerTests
