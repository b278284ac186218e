-- ===== src/Versions.antt =====
-- pkg/agent/datamodel/versions.go: the Kubernetes versions that are supported, and the choice of one.
pub mod Semver
pub mod Table
pub mod Select
pub mod Supported
pub mod Latest
pub mod Rationalize
pub mod Patch
pub mod Range
