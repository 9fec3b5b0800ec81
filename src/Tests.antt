-- ===== src/Tests.antt =====
-- Runs of the model at concrete inputs, and the theorems at data that meet their hypotheses.
pub mod Report
pub mod Monitor
pub mod Tree
pub mod Codec
pub mod S7
pub mod Deploy
pub mod Cloud
pub mod Node
pub mod Restart
pub mod Disk
pub mod Server
