-- ===== src/Llm.antt =====
-- infrastructure/llm: the diagnosis in a model's answer, and the provider that asks several models.
pub mod Shared
pub mod Usable
pub mod OpenRouter
pub mod Providers
pub mod Gemini
pub mod Gateway
pub mod Requests
mod Tests
