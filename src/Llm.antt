-- ===== src/Llm.antt =====
-- Calls of the language models: which errors are retried (model/qqbot/llm_retry.go, runtime.go), the
-- change to another profile, and the profiles themselves (model/llm/profiles.go, types.go).
pub mod Config
pub mod Profiles
mod Edits
mod Errors
mod Retry
mod Timeout
mod Verdict
mod Failover
mod Rotation
mod Clients
mod Tests
