-- ===== src/Gateway/Connection.antt =====
-- gateway/connection.ts: transport, scoring, persistence and the handlers, as actions on a `World`.
-- The handlers are in the modules below.
pub mod Transport
pub mod Scoring
pub mod Waiting
pub mod Enforcement
pub mod Join
pub mod Sending
pub mod Frames
pub mod Life
