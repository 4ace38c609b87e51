-- ===== src/Webhook.antt =====
-- packages/webhook/src/handler.ts: what the function's address answers, and what it does meanwhile.
pub mod Effects
pub mod Signature
pub mod Button
pub mod Rollback
pub mod Handler
pub mod Permission
pub mod Authorized
pub mod Fitted
pub mod Silent
pub mod Published
pub mod Pressed
mod Tests
