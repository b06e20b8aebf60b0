-- ===== src/Tests.antt =====
-- The theorems at concrete inputs, and the inputs.
pub mod Names
pub mod Runs
pub mod Worlds
pub mod Lists
pub mod Packets
pub mod Archives
pub mod Snapshots
pub mod Dates
pub mod Files
pub mod Backups
