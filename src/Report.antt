-- ===== src/Report.antt =====
-- The report subsystem (src/report/): fill stations, reports read from the PLCs, and status.
pub mod Station
pub mod PlcReport
pub mod Time
pub mod Crates
pub mod Cache
pub mod Disk
pub mod Status
