-- ===== src/Template.antt =====
-- pkg/agent/baker.go, `getContainerServiceFuncMap`: the functions that the templates call, one
-- definition for each entry of the map. An entry that follows a nil pointer panics: `none`.
pub mod Access
pub mod ControlPlane
pub mod Node
pub mod Runtime
pub mod Settings
pub mod Network
pub mod CustomCloud
pub mod Proxy
pub mod Files
