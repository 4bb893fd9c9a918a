-- ===== src/Local/Cli.antt =====
-- cmd/ark/main.go: the subcommands run, validate and init.
pub mod Check
pub mod Run
pub mod Init
pub mod Accepts
