-- ===== src/Runtime.antt =====
-- The agent runtime: the code that runs in the pods of an agent.
pub mod Queue
pub mod Config
pub mod Tools
pub mod Provider
pub mod Runner
pub mod Agent
