-- ===== src/Tools.antt =====
-- The tools that an agent may call on the engine: agenttools/policy.go, cache.go and tool.go, and
-- the confirmation round trip of agentmcp.
pub mod Policy
pub mod Arguments
pub mod Cache
pub mod Execute
pub mod Confirmation
mod Tests
