-- ===== src/StatStore.antt =====
-- statstore: the logs of games with the settings of their calculation, by versions.
pub mod Logs
pub mod Memory
pub mod Disk
mod Tests
