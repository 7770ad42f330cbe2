-- ===== src/GameStats.antt =====
-- gamestats: the results of a game, reconstructed from the events of its log.
pub mod Log
pub mod Records
pub mod Replay
pub mod Finish
pub mod Eval
pub mod Standings
mod Tests
