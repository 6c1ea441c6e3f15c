-- ===== src/Tests.antt =====
-- Runs of the code on small inputs, and the theorems at inputs that meet their hypotheses.
mod Setup
mod Guards
mod Senders
mod Switches
mod Logins
mod Consoles
mod Backlogs
mod Loops
mod Settings
mod Requests
mod Files
mod Polls
mod Sessions
mod Restarts
