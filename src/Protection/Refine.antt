-- ===== src/Protection/Refine.antt =====
-- A database represents the state of a bot; each script keeps that up and replies as the policy
-- rules.
pub mod Writes
pub mod Sends
pub mod Releases
pub mod Ingress
