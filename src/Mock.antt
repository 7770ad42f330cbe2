-- ===== src/Mock.antt =====
-- The mock engine, cmd/dzzzr-mock: the game of one team and the actions that change it.
pub mod Code
pub mod State
pub mod Line
pub mod Clock
pub mod Entry
pub mod Actions
pub mod Step
pub mod Run
pub mod Limits
pub mod Clues
pub mod Rights
pub mod Demo
mod Tests
