-- ===== src/Sender.antt =====
-- internal/sender: a text goes out as the protection allows, with its footer and its id.
pub mod Footer
pub mod ProtectedText
pub mod World
pub mod Delivery
pub mod Reminders
pub mod Normal
