-- ===== src/Jobs.antt =====
-- src/mcdash/jobs: the Jobs that run in pods, on a world's volume.
pub mod Seed
pub mod Snapshot
