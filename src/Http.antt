-- ===== src/Http.antt =====
-- http/: the endpoints beside the WebSocket.
pub mod Request
pub mod Effects
pub mod Admin
pub mod Routes
pub mod Safety
pub mod Reads
pub mod Errors
pub mod Posts
pub mod Blocks
pub mod Bounds
