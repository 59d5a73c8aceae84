-- ===== src/Examples.antt =====
-- Tests: runs of the definitions, and the theorems applied to concrete values.
pub mod Stored
mod Scored
pub mod Connected
pub mod Administered
pub mod Addressed
mod Configured
mod Cached
mod Served
mod Dated
mod Resumed
mod Drained
mod Named
mod Created
