-- ===== src/Kubelet.antt =====
-- The kubelet's flags, its configuration file, and the rules for what goes where.
pub mod KeyVals
pub mod CommandLine
pub mod ConfigFile
pub mod Rewrite
pub mod PowerShell
