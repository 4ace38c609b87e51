-- ===== src/Worker.antt =====
-- packages/worker: the queue's messages, as CSV or JSON, and the handler that runs the pipeline on them.
pub mod Fields
pub mod Csv
pub mod Handler
pub mod Setup
mod Tests
