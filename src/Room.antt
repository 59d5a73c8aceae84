-- ===== src/Room.antt =====
-- room/: the daily room and its clock.
pub mod Day
pub mod Clock
