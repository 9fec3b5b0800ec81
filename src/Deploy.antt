-- ===== src/Deploy.antt =====
-- Metadata of data blocks, and the content of deployments (src/deploy.rs).
pub mod Meta
pub mod Encoding
pub mod Write
pub mod Disk
