-- ===== src/Protection.antt =====
-- internal/protection: the guard that counts the messages of a bot between two conversations.
pub mod Guard
pub mod Scripts
pub mod Policy
pub mod Refine
pub mod Keys
pub mod StateStore
pub mod Replies
pub mod RedisGuard
pub mod History
pub mod RuntimeGuard
