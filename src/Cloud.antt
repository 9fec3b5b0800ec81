-- ===== src/Cloud.antt =====
-- The session with the cloud server (src/grpc/cloud.rs).
pub mod Types
pub mod Legacy
pub mod Summary
pub mod Session
pub mod Config
pub mod Command
pub mod Loops
