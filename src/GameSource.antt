-- ===== src/GameSource.antt =====
-- gamesource: ordered batches of a game's levels, their validation and their application.
pub mod Level
pub mod Codes
pub mod Plan
pub mod Apply
mod Tests
