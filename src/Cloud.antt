-- ===== src/Cloud.antt =====
-- The cloud that a region belongs to: GetCloudTargetEnv of pkg/agent/utils.go, of
-- pkg/aks-engine/helpers/helpers.go and of pkg/agent/datamodel/sig_config.go, and GetTargetEnv.
pub mod Agent
pub mod Helpers
pub mod Region
pub mod Agreement
use agent_baker.Prelude.{[]}
use agent_baker.Text.{Text, text, to_lower, join, fields}

abbrev pub azure_public_cloud : Text
azure_public_cloud = text "AzurePublicCloud"

abbrev pub azure_china_cloud : Text
azure_china_cloud = text "AzureChinaCloud"

abbrev pub azure_german_cloud : Text
azure_german_cloud = text "AzureGermanCloud"

abbrev pub azure_us_government_cloud : Text
azure_us_government_cloud = text "AzureUSGovernmentCloud"

abbrev pub azure_stack_cloud : Text
azure_stack_cloud = text "AzureStackCloud"

abbrev pub us_nat_cloud : Text
us_nat_cloud = text "USNatCloud"

abbrev pub us_sec_cloud : Text
us_sec_cloud = text "USSecCloud"

-- `strings.ToLower(strings.Join(strings.Fields(location), ""))`
unfoldable pub compact : Text → Text
compact location = to_lower (join (fields location) [])
