-- ===== src/Datamodel/KubeletConfiguration.antt =====
-- pkg/agent/datamodel/types.go: the configuration file of the kubelet, each with its zero value.
use agent_baker.Prelude.{Bool, false, List, [], Option, none}
use agent_baker.Prelude.Int.{ℤ, pos}
use agent_baker.Text.{Text}
use agent_baker.GoMap.{GoMap}

-- `KubeletX509Authentication`
pub record KubeletX509Authentication : Type 0 where
  pub client_ca_file : Text

abbrev pub zero_kubelet_x509_authentication : KubeletX509Authentication
zero_kubelet_x509_authentication = record { client_ca_file = [] }

-- `KubeletWebhookAuthentication`
pub record KubeletWebhookAuthentication : Type 0 where
  pub enabled : Bool
  pub cache_ttl : Text

abbrev pub zero_kubelet_webhook_authentication : KubeletWebhookAuthentication
zero_kubelet_webhook_authentication = record { enabled = false; cache_ttl = [] }

-- `KubeletAnonymousAuthentication`
pub record KubeletAnonymousAuthentication : Type 0 where
  pub enabled : Bool

abbrev pub zero_kubelet_anonymous_authentication : KubeletAnonymousAuthentication
zero_kubelet_anonymous_authentication = record { enabled = false }

-- `KubeletAuthentication`
pub record KubeletAuthentication : Type 0 where
  pub x509 : KubeletX509Authentication
  pub webhook : KubeletWebhookAuthentication
  pub anonymous : KubeletAnonymousAuthentication

abbrev pub zero_kubelet_authentication : KubeletAuthentication
zero_kubelet_authentication = record {
  x509 = zero_kubelet_x509_authentication;
  webhook = zero_kubelet_webhook_authentication;
  anonymous = zero_kubelet_anonymous_authentication;
}

-- `KubeletWebhookAuthorization`
pub record KubeletWebhookAuthorization : Type 0 where
  pub cache_authorized_ttl : Text
  pub cache_unauthorized_ttl : Text

abbrev pub zero_kubelet_webhook_authorization : KubeletWebhookAuthorization
zero_kubelet_webhook_authorization = record {
  cache_authorized_ttl = [];
  cache_unauthorized_ttl = [];
}

-- `KubeletAuthorization`
pub record KubeletAuthorization : Type 0 where
  pub mode : Text
  pub webhook : KubeletWebhookAuthorization

abbrev pub zero_kubelet_authorization : KubeletAuthorization
zero_kubelet_authorization = record { mode = []; webhook = zero_kubelet_webhook_authorization }

-- `AKSKubeletConfiguration`
pub record AksKubeletConfiguration : Type 0 where
  pub kind : Text
  pub api_version : Text
  pub static_pod_path : Text
  pub address : Text
  pub read_only_port : ℤ
  pub tls_cert_file : Text
  pub tls_private_key_file : Text
  pub tls_cipher_suites : List Text
  pub rotate_certificates : Bool
  pub authentication : KubeletAuthentication
  pub authorization : KubeletAuthorization
  pub event_record_qps : Option ℤ
  pub cluster_domain : Text
  pub cluster_dns : List Text
  pub streaming_connection_idle_timeout : Text
  pub node_status_update_frequency : Text
  pub image_gc_high_threshold_percent : Option ℤ
  pub image_gc_low_threshold_percent : Option ℤ
  pub cgroups_per_qos : Option Bool
  pub cpu_manager_policy : Text
  pub topology_manager_policy : Text
  pub max_pods : ℤ
  pub pod_pids_limit : Option ℤ
  pub resolver_config : Text
  pub cpucfs_quota : Option Bool
  pub cpucfs_quota_period : Text
  pub eviction_hard : GoMap Text
  pub protect_kernel_defaults : Bool
  pub feature_gates : GoMap Bool
  pub fail_swap_on : Option Bool
  pub container_log_max_size : Text
  pub container_log_max_files : Option ℤ
  pub system_reserved : GoMap Text
  pub kube_reserved : GoMap Text
  pub enforce_node_allocatable : List Text
  pub allowed_unsafe_sysctls : List Text

abbrev pub zero_aks_kubelet_configuration : AksKubeletConfiguration
zero_aks_kubelet_configuration = record {
  kind = [];
  api_version = [];
  static_pod_path = [];
  address = [];
  read_only_port = pos 0;
  tls_cert_file = [];
  tls_private_key_file = [];
  tls_cipher_suites = [];
  rotate_certificates = false;
  authentication = zero_kubelet_authentication;
  authorization = zero_kubelet_authorization;
  event_record_qps = none;
  cluster_domain = [];
  cluster_dns = [];
  streaming_connection_idle_timeout = [];
  node_status_update_frequency = [];
  image_gc_high_threshold_percent = none;
  image_gc_low_threshold_percent = none;
  cgroups_per_qos = none;
  cpu_manager_policy = [];
  topology_manager_policy = [];
  max_pods = pos 0;
  pod_pids_limit = none;
  resolver_config = [];
  cpucfs_quota = none;
  cpucfs_quota_period = [];
  eviction_hard = [];
  protect_kernel_defaults = false;
  feature_gates = [];
  fail_swap_on = none;
  container_log_max_size = [];
  container_log_max_files = none;
  system_reserved = [];
  kube_reserved = [];
  enforce_node_allocatable = [];
  allowed_unsafe_sysctls = [];
}
