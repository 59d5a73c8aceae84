-- ===== src/Identity.antt =====
-- identity/: public names and the anonymous sessions of a day.
pub mod Names
pub mod Sessions
pub mod Unsaved
pub mod Resuming
pub mod Steady
pub mod Creating
