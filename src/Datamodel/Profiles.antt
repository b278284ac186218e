-- ===== src/Datamodel/Profiles.antt =====
-- pkg/agent/datamodel/types.go: the profiles of a cluster, each with its zero value.
use agent_baker.Prelude.{Bool, false, List, [], Option, none}
use agent_baker.Text.{Text}
use agent_baker.GoMap.{GoMap}

-- `CustomSearchDomain`
pub record CustomSearchDomain : Type 0 where
  pub name : Text
  pub realm_user : Text
  pub realm_password : Text

abbrev pub zero_custom_search_domain : CustomSearchDomain
zero_custom_search_domain = record { name = []; realm_user = []; realm_password = [] }

-- `PublicKey`
pub record PublicKey : Type 0 where
  pub key_data : Text

abbrev pub zero_public_key : PublicKey
zero_public_key = record { key_data = [] }

-- `KeyVaultCertificate`
pub record KeyVaultCertificate : Type 0 where
  pub certificate_url : Text
  pub certificate_store : Text

abbrev pub zero_key_vault_certificate : KeyVaultCertificate
zero_key_vault_certificate = record { certificate_url = []; certificate_store = [] }

-- `KeyVaultID`
pub record KeyVaultId : Type 0 where
  pub id : Text

abbrev pub zero_key_vault_id : KeyVaultId
zero_key_vault_id = record { id = [] }

-- `KeyVaultRef`
pub record KeyVaultRef : Type 0 where
  pub key_vault : KeyVaultId
  pub secret_name : Text
  pub secret_version : Text

abbrev pub zero_key_vault_ref : KeyVaultRef
zero_key_vault_ref = record { key_vault = zero_key_vault_id; secret_name = []; secret_version = [] }

-- `KeyVaultSecrets`
pub record KeyVaultSecrets : Type 0 where
  pub source_vault : Option KeyVaultId
  pub vault_certificates : List KeyVaultCertificate

abbrev pub zero_key_vault_secrets : KeyVaultSecrets
zero_key_vault_secrets = record { source_vault = none; vault_certificates = [] }

-- `ImageReference`
pub record ImageReference : Type 0 where
  pub name : Text
  pub resource_group : Text
  pub subscription_id : Text
  pub gallery : Text
  pub version : Text

abbrev pub zero_image_reference : ImageReference
zero_image_reference = record {
  name = [];
  resource_group = [];
  subscription_id = [];
  gallery = [];
  version = [];
}

-- `KeyvaultSecretRef`
pub record KeyvaultSecretRef : Type 0 where
  pub vault_id : Text
  pub secret_name : Text
  pub secret_version : Text

abbrev pub zero_keyvault_secret_ref : KeyvaultSecretRef
zero_keyvault_secret_ref = record { vault_id = []; secret_name = []; secret_version = [] }

-- `UserAssignedIdentity`
pub record UserAssignedIdentity : Type 0 where
  pub resource_id : Text
  pub client_id : Text
  pub object_id : Text

abbrev pub zero_user_assigned_identity : UserAssignedIdentity
zero_user_assigned_identity = record { resource_id = []; client_id = []; object_id = [] }

-- `TelemetryProfile`
pub record TelemetryProfile : Type 0 where
  pub application_insights_key : Text

abbrev pub zero_telemetry_profile : TelemetryProfile
zero_telemetry_profile = record { application_insights_key = [] }

-- `FeatureFlags`
pub record FeatureFlags : Type 0 where
  pub enable_cse_run_in_background : Bool
  pub block_outbound_internet : Bool
  pub enable_ipv6_dual_stack : Bool
  pub enable_telemetry : Bool
  pub enable_ipv6_only : Bool
  pub enable_win_dsr : Bool

abbrev pub zero_feature_flags : FeatureFlags
zero_feature_flags = record {
  enable_cse_run_in_background = false;
  block_outbound_internet = false;
  enable_ipv6_dual_stack = false;
  enable_telemetry = false;
  enable_ipv6_only = false;
  enable_win_dsr = false;
}

-- `AddonProfile`
pub record AddonProfile : Type 0 where
  pub enabled : Bool
  pub config : GoMap Text
  pub identity : Option UserAssignedIdentity

abbrev pub zero_addon_profile : AddonProfile
zero_addon_profile = record { enabled = false; config = []; identity = none }

-- `HostedMasterProfile`
pub record HostedMasterProfile : Type 0 where
  pub fqdn : Text
  pub dns_prefix : Text
  pub subnet : Text
  pub api_server_white_list_range : Option Text
  pub ip_masq_agent : Bool

abbrev pub zero_hosted_master_profile : HostedMasterProfile
zero_hosted_master_profile = record {
  fqdn = [];
  dns_prefix = [];
  subnet = [];
  api_server_white_list_range = none;
  ip_masq_agent = false;
}

-- `CustomProfile`
pub record CustomProfile : Type 0 where
  pub orchestrator : Text

abbrev pub zero_custom_profile : CustomProfile
zero_custom_profile = record { orchestrator = [] }

-- `AADProfile`
pub record AadProfile : Type 0 where
  pub client_app_id : Text
  pub server_app_id : Text
  pub server_app_secret : Text
  pub tenant_id : Text
  pub admin_group_id : Text
  pub authenticator : Text

abbrev pub zero_aad_profile : AadProfile
zero_aad_profile = record {
  client_app_id = [];
  server_app_id = [];
  server_app_secret = [];
  tenant_id = [];
  admin_group_id = [];
  authenticator = [];
}

-- `CertificateProfile`
pub record CertificateProfile : Type 0 where
  pub ca_certificate : Text
  pub ca_private_key : Text
  pub api_server_certificate : Text
  pub api_server_private_key : Text
  pub client_certificate : Text
  pub client_private_key : Text
  pub kube_config_certificate : Text
  pub kube_config_private_key : Text

abbrev pub zero_certificate_profile : CertificateProfile
zero_certificate_profile = record {
  ca_certificate = [];
  ca_private_key = [];
  api_server_certificate = [];
  api_server_private_key = [];
  client_certificate = [];
  client_private_key = [];
  kube_config_certificate = [];
  kube_config_private_key = [];
}

-- `ServicePrincipalProfile`
pub record ServicePrincipalProfile : Type 0 where
  pub client_id : Text
  pub secret : Text
  pub object_id : Text
  pub keyvault_secret_ref : Option KeyvaultSecretRef

abbrev pub zero_service_principal_profile : ServicePrincipalProfile
zero_service_principal_profile = record {
  client_id = [];
  secret = [];
  object_id = [];
  keyvault_secret_ref = none;
}

-- `ExtensionProfile`
pub record ExtensionProfile : Type 0 where
  pub name : Text
  pub version : Text
  pub extension_parameters : Text
  pub extension_parameters_key_vault_ref : Option KeyvaultSecretRef
  pub root_url : Text
  pub script : Text
  pub url_query : Text

abbrev pub zero_extension_profile : ExtensionProfile
zero_extension_profile = record {
  name = [];
  version = [];
  extension_parameters = [];
  extension_parameters_key_vault_ref = none;
  root_url = [];
  script = [];
  url_query = [];
}

-- `Extension`
pub record Extension : Type 0 where
  pub name : Text
  pub single_or_all : Text
  pub template : Text

abbrev pub zero_extension : Extension
zero_extension = record { name = []; single_or_all = []; template = [] }

-- `VMDiagnostics`
pub record VmDiagnostics : Type 0 where
  pub enabled : Bool
  pub storage_url : Option Text

abbrev pub zero_vm_diagnostics : VmDiagnostics
zero_vm_diagnostics = record { enabled = false; storage_url = none }

-- `DiagnosticsProfile`
pub record DiagnosticsProfile : Type 0 where
  pub vm_diagnostics : Option VmDiagnostics

abbrev pub zero_diagnostics_profile : DiagnosticsProfile
zero_diagnostics_profile = record { vm_diagnostics = none }

-- `ResourcePurchasePlan`
pub record ResourcePurchasePlan : Type 0 where
  pub name : Text
  pub product : Text
  pub promotion_code : Text
  pub publisher : Text

abbrev pub zero_resource_purchase_plan : ResourcePurchasePlan
zero_resource_purchase_plan = record {
  name = [];
  product = [];
  promotion_code = [];
  publisher = [];
}
