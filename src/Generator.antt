-- ===== src/Generator.antt =====
-- pkg/agent: the helpers of the template generator (utils.go), the parameters (params.go) and the
-- variables (variables.go) of the templates.
pub mod Addresses
pub mod Params
pub mod Parameters
pub mod Extension
pub mod Rules
pub mod SingleLine
pub mod Assets
pub mod CustomData
pub mod Variables
pub mod Payload
pub mod WindowsFunctions
