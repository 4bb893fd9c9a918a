-- ===== src/Operator.antt =====
-- internal/controller: the reconcilers of the operator.
pub mod Redis
pub mod Results
pub mod Submit
pub mod Reconcile
pub mod History
pub mod Events
pub mod Agents
pub mod Webhook
pub mod Services
pub mod Memories
