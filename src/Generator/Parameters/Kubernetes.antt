-- ===== src/Generator/Parameters/Kubernetes.antt =====
-- pkg/agent/params.go, `assignKubernetesParameters` and
-- `assignKubernetesParametersFromAgentProfile`: the calls of `addValue` and `addSecret`, in order.
use agent_baker.Prelude.{
  Bool, true, false, not, List, [], ◌∷◌, ◌++◌, Option, none, some, if◌then◌else◌,
}
use agent_baker.Prelude.Panic.{◌>>=◌}
use agent_baker.Prelude.Int.{Float64}
use agent_baker.Text.{Text, text, beq, is_empty}
use agent_baker.Text.Base64.{base64_encode}
use agent_baker.Datamodel.Cloud.{AzureEnvironmentSpecConfig}
use agent_baker.Datamodel.Profiles.{CertificateProfile, ServicePrincipalProfile}
use agent_baker.Datamodel.Kubernetes.{KubernetesConfig, OrchestratorProfile}
use agent_baker.Datamodel.Cluster.{AgentPoolProfile, Properties}
use agent_baker.Datamodel.Bootstrapping.{K8sComponents, NodeBootstrappingConfiguration}
use agent_baker.Methods.Kubernetes.{get_azure_cniurl_linux, get_azure_cniurl_windows}
use agent_baker.Methods.Cluster.{has_windows}
use agent_baker.Generator.Params.{
  Value, ParamsMap, string_value, bool_pointer, int_value, map_value, empty, entry, add_value,
  add_secret,
}

-- One call: `addValue(m, k, v)`, or `addSecret(m, k, v, true)`.
pub data Assignment : Type 0 where
  value : Text → Value → Assignment
  secret : Text → Text → Assignment

unfoldable pub assign : ParamsMap → Assignment → ParamsMap
assign m (value k v) = add_value m k v
assign m (secret k v) = add_secret m k (string_value v) true

-- The calls one after another.
unfoldable pub assign_all : ParamsMap → List Assignment → ParamsMap
assign_all m [] = m
assign_all m (a ∷ assignments) = assign_all (assign m a) assignments

-- `if b { … }`
abbrev pub assignments_when : Bool → List Assignment → List Assignment
assignments_when true assignments = assignments
assignments_when false assignments = []

-- `if v != "" { addValue(m, k, v) }`
abbrev pub if_given : Text → Text → List Assignment
if_given k v = assignments_when (not (is_empty v)) (value k (string_value v) ∷ [])

-- `addValue(m, k, v)` for a text
abbrev pub plain : Text → Text → Assignment
plain k v = value k (string_value v)

-- The map under `cloudproviderConfig`.
abbrev pub cloudprovider_config : (Float64 → Text) → KubernetesConfig → ParamsMap
cloudprovider_config format_float k =
    entry (text "cloudProviderBackoffMode") (string_value k.cloud_provider_backoff_mode) (
      entry (text "cloudProviderBackoff") (bool_pointer k.cloud_provider_backoff) (
        entry (text "cloudProviderBackoffRetries") (int_value k.cloud_provider_backoff_retries) (
          entry (text "cloudProviderBackoffJitter")
            (string_value (format_float k.cloud_provider_backoff_jitter))
            (entry (text "cloudProviderBackoffDuration")
              (int_value k.cloud_provider_backoff_duration)
              (entry (text "cloudProviderBackoffExponent")
                (string_value (format_float k.cloud_provider_backoff_exponent))
                (entry (text "cloudProviderRateLimit") (bool_pointer k.cloud_provider_rate_limit) (
                  entry (text "cloudProviderRateLimitQPS")
                    (string_value (format_float k.cloud_provider_rate_limit_qps))
                    (entry (text "cloudProviderRateLimitQPSWrite")
                      (string_value (format_float k.cloud_provider_rate_limit_qps_write))
                      (entry (text "cloudProviderRateLimitBucket")
                        (int_value k.cloud_provider_rate_limit_bucket)
                        (entry (text "cloudProviderRateLimitBucketWrite")
                          (int_value k.cloud_provider_rate_limit_bucket_write)
                          (entry (text "cloudProviderDisableOutboundSNAT")
                            (bool_pointer k.cloud_provider_disable_outbound_snat) empty)))))))))))

abbrev pub network_assignments :
    (Float64 → Text) → KubernetesConfig → K8sComponents → List Assignment
network_assignments format_float k components =
    if_given (text "kubeProxySpec") k.custom_kube_proxy_image
    ++ (if_given (text "kubeBinaryURL") k.custom_kube_binary_url
        ++ (plain (text "kubernetesHyperkubeSpec") components.hyperkube_image_url
            ∷ plain (text "kubeDNSServiceIP") k.dns_service_ip
            ∷ value (text "cloudproviderConfig") (map_value (cloudprovider_config format_float k))
            ∷ plain (text "kubeClusterCidr") k.cluster_subnet
            ∷ plain (text "dockerBridgeCidr") k.docker_bridge_subnet
            ∷ plain (text "networkPolicy") k.network_policy
            ∷ plain (text "networkPlugin") k.network_plugin
            ∷ plain (text "networkMode") k.network_mode
            ∷ plain (text "containerRuntime") k.container_runtime
            ∷ []))

abbrev pub windows_node_assignments :
    Text → KubernetesConfig → K8sComponents → AzureEnvironmentSpecConfig → List Assignment
windows_node_assignments k8s_version k components cloud =
    plain (text "kubeBinariesSASURL") components.windows_package_url
    ∷ plain (text "windowsKubeBinariesURL") k.windows_node_binaries_url
    ∷ plain (text "windowsContainerdURL") k.windows_containerd_url
    ∷ plain (text "kubeServiceCidr") k.service_cidr
    ∷ plain (text "kubeBinariesVersion") k8s_version
    ∷ plain (text "windowsTelemetryGUID") cloud.kubernetes_spec_config.windows_telemetry_guid
    ∷ plain (text "windowsSdnPluginURL") k.windows_sdn_plugin_url
    ∷ []

-- What a Kubernetes configuration adds; the components and the cloud are followed.
unfoldable pub config_assignments :
    (Float64 → Text)
    → Properties
    → Text
    → Option AzureEnvironmentSpecConfig
    → Option K8sComponents
    → Option KubernetesConfig
    → Option (List Assignment)
config_assignments format_float properties k8s_version cloud_spec_config k8s_components none =
    some []
config_assignments format_float properties k8s_version cloud_spec_config k8s_components (some k) =
    do
      components ← k8s_components
      cloud ← cloud_spec_config
      cni_linux ← get_azure_cniurl_linux k cloud_spec_config
      cni_windows ← get_azure_cniurl_windows k cloud_spec_config
      windows_cluster ← has_windows properties
      some (
          network_assignments format_float k components
          ++ (plain (text "containerdDownloadURLBase")
                cloud.kubernetes_spec_config.containerd_download_url_base
              ∷ plain (text "cniPluginsURL") cloud.kubernetes_spec_config.cni_plugins_download_url
              ∷ plain (text "vnetCniLinuxPluginsURL") cni_linux
              ∷ plain (text "vnetCniWindowsPluginsURL") cni_windows
              ∷ assignments_when windows_cluster
                  (windows_node_assignments k8s_version k components cloud)))

abbrev pub principal_assignments : Option ServicePrincipalProfile → List Assignment
principal_assignments none = []
principal_assignments (some principal) =
    plain (text "servicePrincipalClientId") principal.client_id
    ∷ plain (text "servicePrincipalClientSecret") principal.secret
    ∷ plain (text "encodedServicePrincipalClientSecret") (base64_encode principal.secret)
    ∷ []

abbrev pub certificate_assignments : Option CertificateProfile → List Assignment
certificate_assignments none = []
certificate_assignments (some certificates) =
    secret (text "apiServerCertificate") certificates.api_server_certificate
    ∷ secret (text "apiServerPrivateKey") certificates.api_server_private_key
    ∷ secret (text "caCertificate") certificates.ca_certificate
    ∷ secret (text "caPrivateKey") certificates.ca_private_key
    ∷ secret (text "clientCertificate") certificates.client_certificate
    ∷ secret (text "clientPrivateKey") certificates.client_private_key
    ∷ []

-- `assignKubernetesParameters`, for an orchestrator that `IsKubernetes` holds of
unfoldable pub assign_kubernetes_parameters :
    (Float64 → Text)
    → Properties
    → OrchestratorProfile
    → Option AzureEnvironmentSpecConfig
    → Option K8sComponents
    → Option (List Assignment)
assign_kubernetes_parameters format_float properties orchestrator cloud_spec_config k8s_components =
    do
      config ←
          config_assignments format_float properties orchestrator.orchestrator_version
            cloud_spec_config k8s_components orchestrator.kubernetes_config
      some (
          plain (text "kubernetesVersion") orchestrator.orchestrator_version
          ∷ (config
              ++ (principal_assignments properties.service_principal_profile
                  ++ certificate_assignments properties.certificate_profile)))

abbrev runtime_assignments : NodeBootstrappingConfiguration → KubernetesConfig → List Assignment
runtime_assignments config k =
    plain (text "containerRuntime") k.container_runtime
    ∷ (if beq k.container_runtime (text "containerd")
        then plain (text "cliTool") (text "ctr")
          ∷ (if_given (text "containerdVersion") config.containerd_version
              ++ if_given (text "teleportdPluginURL") config.teleportd_plugin_url)
        else plain (text "cliTool") (text "docker") ∷ [])

abbrev pub override_assignments :
    NodeBootstrappingConfiguration → Option KubernetesConfig → List Assignment
override_assignments config none = []
override_assignments config (some k) =
    assignments_when (not (is_empty k.container_runtime)) (runtime_assignments config k)

-- `assignKubernetesParametersFromAgentProfile`
unfoldable pub assign_kubernetes_parameters_from_agent_profile :
    AgentPoolProfile → NodeBootstrappingConfiguration → List Assignment
assign_kubernetes_parameters_from_agent_profile profile config =
    if_given (text "runcVersion") config.runc_version
    ++ override_assignments config profile.kubernetes_config
