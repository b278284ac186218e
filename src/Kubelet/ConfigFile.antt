-- ===== src/Kubelet/ConfigFile.antt =====
-- pkg/agent/utils.go: `GetKubeletConfigFileContent`, which turns flags into the kubelet's
-- configuration file.
pub mod Reads
use agent_baker.Prelude.{
  ℕ, ◌^◌, Bool, true, false, not, ◌&&◌, List, [], ◌∷◌, ◌++◌, Option, none, some, is_some,
  if◌then◌else◌,
}
use agent_baker.Prelude.Int.{ℤ}
use agent_baker.Text.{Text, text, is_empty, split}
use agent_baker.Text.Number.{parse_int, format_int}
use agent_baker.GoMap.{GoMap, get_or, insert}
use agent_baker.Datamodel.Os.{CustomKubeletConfig}
use agent_baker.Datamodel.KubeletConfiguration.{
  KubeletAuthentication, KubeletAuthorization, KubeletX509Authentication,
  KubeletWebhookAuthentication, KubeletAnonymousAuthentication, AksKubeletConfiguration,
  zero_kubelet_authentication, zero_kubelet_webhook_authentication, zero_kubelet_authorization,
  zero_aks_kubelet_configuration,
}
use agent_baker.Kubelet.KeyVals.{str_to_bool, str_key_val_to_map, str_key_val_to_map_bool}

-- `strToBoolPtr`
unfoldable pub str_to_bool_ptr : Text → Option Bool
str_to_bool_ptr str = if is_empty str then none else some (str_to_bool str)

-- `strToInt32`
unfoldable pub str_to_int32 : Text → ℤ
str_to_int32 str = parse_int (2 ^ 31) str

-- `strToInt32Ptr`
unfoldable pub str_to_int32_ptr : Text → Option ℤ
str_to_int32_ptr str = if is_empty str then none else some (str_to_int32 str)

-- `strToInt64`
unfoldable pub str_to_int64 : Text → ℤ
str_to_int64 str = parse_int (2 ^ 63) str

-- `strToInt64Ptr`
unfoldable pub str_to_int64_ptr : Text → Option ℤ
str_to_int64_ptr str = if is_empty str then none else some (str_to_int64 str)

-- `kc[key]`
unfoldable pub flag : GoMap Text → Text → Text
flag kc key = get_or kc key []

-- The composite literal that translates the simple values.
unfoldable pub simple_values : GoMap Text → AksKubeletConfiguration
simple_values kc = record zero_aks_kubelet_configuration {
  api_version = text "kubelet.config.k8s.io/v1beta1";
  kind = text "KubeletConfiguration";
  address = flag kc (text "--address");
  static_pod_path = flag kc (text "--pod-manifest-path");
  authorization = record zero_kubelet_authorization {
    mode = flag kc (text "--authorization-mode");
  };
  cluster_dns = split (flag kc (text "--cluster-dns")) b',';
  cgroups_per_qos = str_to_bool_ptr (flag kc (text "--cgroups-per-qos"));
  tls_cert_file = flag kc (text "--tls-cert-file");
  tls_private_key_file = flag kc (text "--tls-private-key-file");
  tls_cipher_suites = split (flag kc (text "--tls-cipher-suites")) b',';
  cluster_domain = flag kc (text "--cluster-domain");
  max_pods = str_to_int32 (flag kc (text "--max-pods"));
  node_status_update_frequency = flag kc (text "--node-status-update-frequency");
  image_gc_high_threshold_percent = str_to_int32_ptr (flag kc (text "--image-gc-high-threshold"));
  image_gc_low_threshold_percent = str_to_int32_ptr (flag kc (text "--image-gc-low-threshold"));
  event_record_qps = str_to_int32_ptr (flag kc (text "--event-qps"));
  pod_pids_limit = str_to_int64_ptr (flag kc (text "--pod-max-pids"));
  enforce_node_allocatable = split (flag kc (text "--enforce-node-allocatable")) b',';
  streaming_connection_idle_timeout = flag kc (text "--streaming-connection-idle-timeout");
  rotate_certificates = str_to_bool (flag kc (text "--rotate-certificates"));
  read_only_port = str_to_int32 (flag kc (text "--read-only-port"));
  protect_kernel_defaults = str_to_bool (flag kc (text "--protect-kernel-defaults"));
  resolver_config = flag kc (text "--resolv-conf");
}

-- The section `// Authentication`.
unfoldable pub authentication : GoMap Text → KubeletAuthentication
authentication kc =
    let ca = flag kc (text "--client-ca-file") in
    let aw = flag kc (text "--authentication-token-webhook") in
    let aa = flag kc (text "--anonymous-auth") in
    record zero_kubelet_authentication {
      x509 =
          if is_empty ca then zero_kubelet_authentication.x509 else record { client_ca_file = ca };
      webhook =
          if is_empty aw
          then zero_kubelet_webhook_authentication
          else record zero_kubelet_webhook_authentication { enabled = str_to_bool aw };
      anonymous =
          if is_empty aa
          then zero_kubelet_authentication.anonymous
          else record { enabled = str_to_bool aa };
    }

-- The flags in the file, before the custom configuration.
unfoldable pub from_flags : GoMap Text → AksKubeletConfiguration
from_flags kc =
    let eh = flag kc (text "--eviction-hard") in
    record (simple_values kc) {
      authentication = authentication kc;
      eviction_hard = if is_empty eh then [] else str_key_val_to_map eh b',' b'<';
      feature_gates = str_key_val_to_map_bool (flag kc (text "--feature-gates")) b',' b'=';
      system_reserved = str_key_val_to_map (flag kc (text "--system-reserved")) b',' b'=';
      kube_reserved = str_key_val_to_map (flag kc (text "--kube-reserved")) b',' b'=';
    }

-- `if p != nil { field = p }`
unfoldable pub or_pointer {ℓ} : {A : Type ℓ} → Option A → Option A → Option A
or_pointer none old = old
or_pointer (some new) old = some new

-- `if s != "" { field = s }`
unfoldable pub or_text : Text → Text → Text
or_text [] old = old
or_text (c ∷ s) old = c ∷ s

-- `if s != "" { featureGates[gate] = true }`
unfoldable pub enable_if_set : Text → Text → GoMap Bool → GoMap Bool
enable_if_set [] gate gates = gates
enable_if_set (c ∷ s) gate gates = insert gates gate true

-- `if p != nil { config.ContainerLogMaxSize = fmt.Sprintf("%dM", *p) }`
unfoldable pub log_max_size : Option ℤ → Text → Text
log_max_size none old = old
log_max_size (some megabytes) old = format_int megabytes ++ text "M"

unfoldable pub allowed_sysctls : Option (List Text) → List Text → List Text
allowed_sysctls none old = old
allowed_sysctls (some sysctls) old = sysctls

-- The body of `if customKc != nil`.
unfoldable pub set_custom : CustomKubeletConfig → AksKubeletConfiguration → AksKubeletConfiguration
set_custom custom_kc config = record config {
  cpu_manager_policy = or_text custom_kc.cpu_manager_policy config.cpu_manager_policy;
  cpucfs_quota = or_pointer custom_kc.cpu_cfs_quota config.cpucfs_quota;
  cpucfs_quota_period = or_text custom_kc.cpu_cfs_quota_period config.cpucfs_quota_period;
  topology_manager_policy =
      or_text custom_kc.topology_manager_policy config.topology_manager_policy;
  feature_gates = enable_if_set custom_kc.topology_manager_policy (text "TopologyManager") (
      enable_if_set custom_kc.cpu_cfs_quota_period (text "CustomCPUCFSQuotaPeriod")
        config.feature_gates);
  image_gc_high_threshold_percent =
      or_pointer custom_kc.image_gc_high_threshold config.image_gc_high_threshold_percent;
  image_gc_low_threshold_percent =
      or_pointer custom_kc.image_gc_low_threshold config.image_gc_low_threshold_percent;
  allowed_unsafe_sysctls =
      allowed_sysctls custom_kc.allowed_unsafe_sysctls config.allowed_unsafe_sysctls;
  fail_swap_on = or_pointer custom_kc.fail_swap_on config.fail_swap_on;
  container_log_max_size =
      log_max_size custom_kc.container_log_max_size_mb config.container_log_max_size;
  container_log_max_files =
      or_pointer custom_kc.container_log_max_files config.container_log_max_files;
  pod_pids_limit = or_pointer custom_kc.pod_max_pids config.pod_pids_limit;
}

-- The `kubeletConfig` that is written out.
unfoldable pub kubelet_config : GoMap Text → Option CustomKubeletConfig → AksKubeletConfiguration
kubelet_config kc none = from_flags kc
kubelet_config kc (some custom_kc) = set_custom custom_kc (from_flags kc)

-- `GetKubeletConfigFileContent`; `marshal` is `json.MarshalIndent(_, "", "    ")`.
unfoldable pub get_kubelet_config_file_content :
    (AksKubeletConfiguration → Text) → Option (GoMap Text) → Option CustomKubeletConfig → Text
get_kubelet_config_file_content marshal none custom_kc = []
get_kubelet_config_file_content marshal (some kc) custom_kc = marshal (kubelet_config kc custom_kc)
