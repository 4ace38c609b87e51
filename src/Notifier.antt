-- ===== src/Notifier.antt =====
-- infrastructure/notifier/routing-notifier.ts and infrastructure/rules/channel-registry.ts: which notifiers
-- a message goes to, what it is made of for Slack and for Teams, and how it is sent. In a registry a notifier
-- is a value of any type, and a delivery names the one that is called.
pub mod Registry
pub mod Routing
pub mod Factory
pub mod Post
pub mod Slack
pub mod Console
pub mod Sanitize
pub mod Teams
pub mod Counted
mod Tests
mod MessageTests
