-- ===== src/App.antt =====
-- internal/app: what the running program does with its parts.
pub mod SendQueue
pub mod Drainers
pub mod Updates
pub mod Switches
pub mod Commands
