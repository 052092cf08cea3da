-- ===== src/Tests.antt =====
-- The theorems at concrete inputs.
mod Acp
mod Remote
mod Helpers
mod Db
mod Router
mod Arena
mod Permission
mod Persistence
mod Conversations
mod Config
mod Sandbox
