-- ===== src/Messaging.antt =====
-- messaging/: what is done to the text of a message.
pub mod Validate
