-- ===== src/Loop.antt =====
-- The agent's loop, agentloop: what of the conversation is sent to the model, and how often the model
-- is asked.
pub mod History
pub mod Retry
pub mod Chat
pub mod Turns
mod Tests
