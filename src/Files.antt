-- ===== src/Files.antt =====
-- agentfiles: the tools that let a model read and save files below one root directory.
pub mod Args
pub mod Root
pub mod Read
pub mod Assemble
pub mod Search
mod Tests
