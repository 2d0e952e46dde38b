-- ===== src/Api.antt =====
-- api/v1alpha: the Conduit resource, its conditions and its status.
pub mod Condition
pub mod ConditionSet
pub mod Types
pub mod Status
