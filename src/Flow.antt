-- ===== src/Flow.antt =====
-- internal/flow: the flow logic that the operator and the ark CLI share.
pub mod External
pub mod Dag
pub mod Status
pub mod Template
pub mod Step
pub mod Phase
