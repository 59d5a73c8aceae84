-- ===== src/Gateway.antt =====
-- gateway/: the live connections and the server that holds them.
pub mod World
pub mod Keeps
pub mod Returns
pub mod Works
pub mod Invariant
pub mod Answers
pub mod Connection
pub mod RoomServer
