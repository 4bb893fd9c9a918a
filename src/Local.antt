-- ===== src/Local.antt =====
-- internal/ark and cmd/ark: the CLI that loads, checks and runs a flow in one process.
pub mod Config
pub mod World
pub mod Executor
pub mod Loader
pub mod Cli
