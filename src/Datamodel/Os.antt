-- ===== src/Datamodel/Os.antt =====
-- pkg/agent/datamodel/types.go: operating system settings of a node, each with its zero value.
use agent_baker.Prelude.{Bool, List, [], Option, none}
use agent_baker.Prelude.Int.{ℤ}
use agent_baker.Text.{Text}
use agent_baker.Datamodel.Distro.{Distro}
use agent_baker.Datamodel.Profiles.{CustomSearchDomain, ImageReference, KeyVaultSecrets, PublicKey}

-- `RuntimeHandlers`
pub record RuntimeHandlers : Type 0 where
  pub build_number : Text

abbrev pub zero_runtime_handlers : RuntimeHandlers
zero_runtime_handlers = record { build_number = [] }

-- `ContainerdWindowsRuntimes`
pub record ContainerdWindowsRuntimes : Type 0 where
  pub default_sandbox_isolation : Text
  pub runtime_handlers : List RuntimeHandlers

abbrev pub zero_containerd_windows_runtimes : ContainerdWindowsRuntimes
zero_containerd_windows_runtimes = record { default_sandbox_isolation = []; runtime_handlers = [] }

-- `WindowsProfile`
pub record WindowsProfile : Type 0 where
  pub admin_username : Text
  pub admin_password : Text
  pub csi_proxy_url : Text
  pub enable_csi_proxy : Option Bool
  pub image_ref : Option ImageReference
  pub image_version : Text
  pub provisioning_scripts_package_url : Text
  pub windows_image_source_url : Text
  pub windows_publisher : Text
  pub windows_offer : Text
  pub windows_sku : Text
  pub windows_docker_version : Text
  pub secrets : List KeyVaultSecrets
  pub ssh_enabled : Option Bool
  pub enable_automatic_updates : Option Bool
  pub is_credential_auto_generated : Option Bool
  pub enable_ahub : Option Bool
  pub windows_pause_image_url : Text
  pub always_pull_windows_pause_image : Option Bool
  pub containerd_windows_runtimes : Option ContainerdWindowsRuntimes
  pub windows_calico_package_url : Text
  pub windows_secure_tls_enabled : Option Bool
  pub windows_gmsa_package_url : Text

abbrev pub zero_windows_profile : WindowsProfile
zero_windows_profile = record {
  admin_username = [];
  admin_password = [];
  csi_proxy_url = [];
  enable_csi_proxy = none;
  image_ref = none;
  image_version = [];
  provisioning_scripts_package_url = [];
  windows_image_source_url = [];
  windows_publisher = [];
  windows_offer = [];
  windows_sku = [];
  windows_docker_version = [];
  secrets = [];
  ssh_enabled = none;
  enable_automatic_updates = none;
  is_credential_auto_generated = none;
  enable_ahub = none;
  windows_pause_image_url = [];
  always_pull_windows_pause_image = none;
  containerd_windows_runtimes = none;
  windows_calico_package_url = [];
  windows_secure_tls_enabled = none;
  windows_gmsa_package_url = [];
}

-- the struct of the field `SSH` of `LinuxProfile`
pub record LinuxProfileSsh : Type 0 where
  pub public_keys : List PublicKey

abbrev pub zero_linux_profile_ssh : LinuxProfileSsh
zero_linux_profile_ssh = record { public_keys = [] }

-- `LinuxProfile`
pub record LinuxProfile : Type 0 where
  pub admin_username : Text
  pub ssh : LinuxProfileSsh
  pub secrets : List KeyVaultSecrets
  pub distro : Distro
  pub custom_search_domain : Option CustomSearchDomain

abbrev pub zero_linux_profile : LinuxProfile
zero_linux_profile = record {
  admin_username = [];
  ssh = zero_linux_profile_ssh;
  secrets = [];
  distro = [];
  custom_search_domain = none;
}

-- `CustomKubeletConfig`
pub record CustomKubeletConfig : Type 0 where
  pub cpu_manager_policy : Text
  pub cpu_cfs_quota : Option Bool
  pub cpu_cfs_quota_period : Text
  pub image_gc_high_threshold : Option ℤ
  pub image_gc_low_threshold : Option ℤ
  pub topology_manager_policy : Text
  pub allowed_unsafe_sysctls : Option (List Text)
  pub fail_swap_on : Option Bool
  pub container_log_max_size_mb : Option ℤ
  pub container_log_max_files : Option ℤ
  pub pod_max_pids : Option ℤ

abbrev pub zero_custom_kubelet_config : CustomKubeletConfig
zero_custom_kubelet_config = record {
  cpu_manager_policy = [];
  cpu_cfs_quota = none;
  cpu_cfs_quota_period = [];
  image_gc_high_threshold = none;
  image_gc_low_threshold = none;
  topology_manager_policy = [];
  allowed_unsafe_sysctls = none;
  fail_swap_on = none;
  container_log_max_size_mb = none;
  container_log_max_files = none;
  pod_max_pids = none;
}

-- `SysctlConfig`
pub record SysctlConfig : Type 0 where
  pub net_core_somaxconn : Option ℤ
  pub net_core_netdev_max_backlog : Option ℤ
  pub net_core_rmem_default : Option ℤ
  pub net_core_rmem_max : Option ℤ
  pub net_core_wmem_default : Option ℤ
  pub net_core_wmem_max : Option ℤ
  pub net_core_optmem_max : Option ℤ
  pub net_ipv4_tcp_max_syn_backlog : Option ℤ
  pub net_ipv4_tcp_max_tw_buckets : Option ℤ
  pub net_ipv4_tcp_fin_timeout : Option ℤ
  pub net_ipv4_tcp_keepalive_time : Option ℤ
  pub net_ipv4_tcp_keepalive_probes : Option ℤ
  pub net_ipv4_tcpkeepalive_intvl : Option ℤ
  pub net_ipv4_tcp_tw_reuse : Option Bool
  pub net_ipv4_ip_local_port_range : Text
  pub net_ipv4_neigh_default_gc_thresh1 : Option ℤ
  pub net_ipv4_neigh_default_gc_thresh2 : Option ℤ
  pub net_ipv4_neigh_default_gc_thresh3 : Option ℤ
  pub net_netfilter_nf_conntrack_max : Option ℤ
  pub net_netfilter_nf_conntrack_buckets : Option ℤ
  pub fs_inotify_max_user_watches : Option ℤ
  pub fs_file_max : Option ℤ
  pub fs_aio_max_nr : Option ℤ
  pub fs_nr_open : Option ℤ
  pub kernel_threads_max : Option ℤ
  pub vm_max_map_count : Option ℤ
  pub vm_swappiness : Option ℤ
  pub vm_vfs_cache_pressure : Option ℤ

abbrev pub zero_sysctl_config : SysctlConfig
zero_sysctl_config = record {
  net_core_somaxconn = none;
  net_core_netdev_max_backlog = none;
  net_core_rmem_default = none;
  net_core_rmem_max = none;
  net_core_wmem_default = none;
  net_core_wmem_max = none;
  net_core_optmem_max = none;
  net_ipv4_tcp_max_syn_backlog = none;
  net_ipv4_tcp_max_tw_buckets = none;
  net_ipv4_tcp_fin_timeout = none;
  net_ipv4_tcp_keepalive_time = none;
  net_ipv4_tcp_keepalive_probes = none;
  net_ipv4_tcpkeepalive_intvl = none;
  net_ipv4_tcp_tw_reuse = none;
  net_ipv4_ip_local_port_range = [];
  net_ipv4_neigh_default_gc_thresh1 = none;
  net_ipv4_neigh_default_gc_thresh2 = none;
  net_ipv4_neigh_default_gc_thresh3 = none;
  net_netfilter_nf_conntrack_max = none;
  net_netfilter_nf_conntrack_buckets = none;
  fs_inotify_max_user_watches = none;
  fs_file_max = none;
  fs_aio_max_nr = none;
  fs_nr_open = none;
  kernel_threads_max = none;
  vm_max_map_count = none;
  vm_swappiness = none;
  vm_vfs_cache_pressure = none;
}

-- `CustomLinuxOSConfig`
pub record CustomLinuxOsConfig : Type 0 where
  pub sysctls : Option SysctlConfig
  pub transparent_huge_page_enabled : Text
  pub transparent_huge_page_defrag : Text
  pub swap_file_size_mb : Option ℤ

abbrev pub zero_custom_linux_os_config : CustomLinuxOsConfig
zero_custom_linux_os_config = record {
  sysctls = none;
  transparent_huge_page_enabled = [];
  transparent_huge_page_defrag = [];
  swap_file_size_mb = none;
}
