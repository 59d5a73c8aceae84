-- ===== src/Gateway/RoomServer.antt =====
-- gateway/room-server.ts: the server's state, the sockets that it holds, and the actions of one
-- connection run on it. Its operations are in the modules below.
pub mod Admission
pub mod Handshakes
pub mod Fanout
pub mod Cutting
pub mod Kicking
pub mod Excluded
pub mod Presence
pub mod Rollover
pub mod Capacity
pub mod Counting
pub mod Delivery
pub mod Backoff
pub mod State
