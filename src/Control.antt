-- ===== src/Control.antt =====
-- internal/control: the channel between the running program and its console.
pub mod Splitter
