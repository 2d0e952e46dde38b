-- ===== src/Controller.antt =====
-- internal/controller/conduit_controller.go: the reconciler of Conduit resources.
pub mod State
pub mod Objects
pub mod Run
pub mod Deployment
pub mod Cluster
pub mod Reconcile
pub mod Touches
pub mod Saved
pub mod View
pub mod Stages
pub mod Running
