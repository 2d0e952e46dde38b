-- ===== src/Examples.antt =====
-- The theorems at concrete resources.
mod Parts
mod Conditions
mod Resources
mod Versions
mod Validation
mod Stages
mod Server
mod System
mod Cluster
mod Reconcile
mod Admitted
mod Deployment
mod Operator
mod Stored
mod Fixtures
mod Deletion
