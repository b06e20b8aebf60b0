-- ===== src/Service.antt =====
-- src/mcdash/service.py: the worlds' records and the operations on them.
pub mod Exec
pub mod Ports
pub mod Records
pub mod Jobs
pub mod Settings
pub mod Operations
pub mod Reconcile
pub mod Requests
pub mod Kept
pub mod Spared
pub mod Turns
pub mod Players
pub mod Whitelist
pub mod Busy
