-- ===== src/Operator/Agents.antt =====
-- internal/controller/arkagent_controller.go: the reconciler of agents.
pub mod Budget
pub mod Env
pub mod Prompt
pub mod Reconcile
