-- ===== src/S7.antt =====
-- The S7 manager (src/s7.rs): one connection per PLC, kept in a pool.
pub mod Types
pub mod Crate
pub mod Pool
pub mod Schema
