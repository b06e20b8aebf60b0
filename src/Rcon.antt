-- ===== src/Rcon.antt =====
-- src/mcdash/rcon.py: the RCON client and its connection pool.
pub mod Pool
pub mod Client
pub mod Console
