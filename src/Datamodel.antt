-- ===== src/Datamodel.antt =====
-- The data types of pkg/agent/datamodel. A pointer is an `Option` of the value it points to; a map
-- or slice whose `nil` the code tells apart from an empty one is an `Option` too.
pub mod Distro
pub mod Profiles
pub mod Os
pub mod Kubernetes
pub mod Cloud
pub mod Gallery
pub mod Cluster
pub mod KubeletConfiguration
pub mod Bootstrapping
pub mod Status
