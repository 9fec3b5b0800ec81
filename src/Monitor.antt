-- ===== src/Monitor.antt =====
-- Monitors (src/report/monitor.rs): blocks that are read at a frequency and sent to the cloud, and to a
-- local address, when they change or when the resend interval is over.
pub mod Config
pub mod Disk
pub mod Turn
pub mod Message
pub mod Post
