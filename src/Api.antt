-- ===== src/Api.antt =====
-- api/v1alpha1: the resource types.
pub mod Meta
pub mod Flow
pub mod Agent
pub mod Event
pub mod Settings
pub mod Service
