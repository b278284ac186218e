-- ===== src/Methods.antt =====
-- pkg/agent/datamodel/types.go: the methods of the data model, one module for each receiver.
pub mod Pool
pub mod Kubernetes
pub mod Profiles
pub mod Windows
pub mod Cluster
pub mod Naming
pub mod Helpers
