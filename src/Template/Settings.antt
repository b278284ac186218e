-- ===== src/Template/Settings.antt =====
-- pkg/agent/baker.go, `getContainerServiceFuncMap`: the settings of the node's operating system.
pub mod Swap
use agent_baker.Prelude.{
  Bool, true, false, not, ◌&&◌, ◌||◌, [], ◌∷◌, Option, none, some, is_some, if◌then◌else◌,
}
use agent_baker.Prelude.Panic.{◌>>=◌}
use agent_baker.Prelude.Int.{ℤ, is_positive}
use agent_baker.Text.{Text, text, is_empty}
use agent_baker.GoMap.{GoMap, lookup}
use agent_baker.Datamodel.Os.{CustomKubeletConfig, CustomLinuxOsConfig, SysctlConfig}
use agent_baker.Methods.Kubernetes.{is_false}
use agent_baker.Datamodel.Bootstrapping.{NodeBootstrappingConfiguration}

abbrev pub sysctls_of : Option CustomLinuxOsConfig → Option SysctlConfig
sysctls_of none = none
sysctls_of (some os) = os.sysctls

-- `ShouldConfigCustomSysctl`
unfoldable pub should_config_custom_sysctl : NodeBootstrappingConfiguration → Option Bool
should_config_custom_sysctl config = config.agent_pool_profile >>= λ profile.
    some (is_some (sysctls_of profile.custom_linux_os_config))

-- The value of a field that `reflect` hands on, with its type.
pub data SysctlValue : Type 0 where
  int32_pointer : Option ℤ → SysctlValue
  bool_pointer : Option Bool → SysctlValue
  plain_string : Text → SysctlValue

-- The fields of `SysctlConfig` by their names in Go.
abbrev pub sysctl_fields : SysctlConfig → GoMap SysctlValue
sysctl_fields s =
    (text "NetCoreSomaxconn", int32_pointer s.net_core_somaxconn)
    ∷ (text "NetCoreNetdevMaxBacklog", int32_pointer s.net_core_netdev_max_backlog)
    ∷ (text "NetCoreRmemDefault", int32_pointer s.net_core_rmem_default)
    ∷ (text "NetCoreRmemMax", int32_pointer s.net_core_rmem_max)
    ∷ (text "NetCoreWmemDefault", int32_pointer s.net_core_wmem_default)
    ∷ (text "NetCoreWmemMax", int32_pointer s.net_core_wmem_max)
    ∷ (text "NetCoreOptmemMax", int32_pointer s.net_core_optmem_max)
    ∷ (text "NetIpv4TcpMaxSynBacklog", int32_pointer s.net_ipv4_tcp_max_syn_backlog)
    ∷ (text "NetIpv4TcpMaxTwBuckets", int32_pointer s.net_ipv4_tcp_max_tw_buckets)
    ∷ (text "NetIpv4TcpFinTimeout", int32_pointer s.net_ipv4_tcp_fin_timeout)
    ∷ (text "NetIpv4TcpKeepaliveTime", int32_pointer s.net_ipv4_tcp_keepalive_time)
    ∷ (text "NetIpv4TcpKeepaliveProbes", int32_pointer s.net_ipv4_tcp_keepalive_probes)
    ∷ (text "NetIpv4TcpkeepaliveIntvl", int32_pointer s.net_ipv4_tcpkeepalive_intvl)
    ∷ (text "NetIpv4TcpTwReuse", bool_pointer s.net_ipv4_tcp_tw_reuse)
    ∷ (text "NetIpv4IpLocalPortRange", plain_string s.net_ipv4_ip_local_port_range)
    ∷ (text "NetIpv4NeighDefaultGcThresh1", int32_pointer s.net_ipv4_neigh_default_gc_thresh1)
    ∷ (text "NetIpv4NeighDefaultGcThresh2", int32_pointer s.net_ipv4_neigh_default_gc_thresh2)
    ∷ (text "NetIpv4NeighDefaultGcThresh3", int32_pointer s.net_ipv4_neigh_default_gc_thresh3)
    ∷ (text "NetNetfilterNfConntrackMax", int32_pointer s.net_netfilter_nf_conntrack_max)
    ∷ (text "NetNetfilterNfConntrackBuckets", int32_pointer s.net_netfilter_nf_conntrack_buckets)
    ∷ (text "FsInotifyMaxUserWatches", int32_pointer s.fs_inotify_max_user_watches)
    ∷ (text "FsFileMax", int32_pointer s.fs_file_max)
    ∷ (text "FsAioMaxNr", int32_pointer s.fs_aio_max_nr)
    ∷ (text "FsNrOpen", int32_pointer s.fs_nr_open)
    ∷ (text "KernelThreadsMax", int32_pointer s.kernel_threads_max)
    ∷ (text "VMMaxMapCount", int32_pointer s.vm_max_map_count)
    ∷ (text "VMSwappiness", int32_pointer s.vm_swappiness)
    ∷ (text "VMVfsCachePressure", int32_pointer s.vm_vfs_cache_pressure)
    ∷ []

-- `v.FieldByName(fn).Interface()`, which panics for a name that is no field
abbrev field_by_name : Text → Option SysctlConfig → Option (Option SysctlValue)
field_by_name fn none = some none
field_by_name fn (some sysctls) = lookup (sysctl_fields sysctls) fn >>= λ value. some (some value)

-- `GetCustomSysctlConfigByName`, where the result inside is nil without settings
unfoldable pub get_custom_sysctl_config_by_name :
    NodeBootstrappingConfiguration → Text → Option (Option SysctlValue)
get_custom_sysctl_config_by_name config fn = config.agent_pool_profile >>= λ profile.
    field_by_name fn (sysctls_of profile.custom_linux_os_config)

abbrev enabled_of : Option CustomLinuxOsConfig → Text
enabled_of none = []
enabled_of (some os) = os.transparent_huge_page_enabled

abbrev defrag_of : Option CustomLinuxOsConfig → Text
defrag_of none = []
defrag_of (some os) = os.transparent_huge_page_defrag

abbrev sets_huge_page : Option CustomLinuxOsConfig → Bool
sets_huge_page none = false
sets_huge_page (some os) =
    not (is_empty os.transparent_huge_page_enabled)
    || not (is_empty os.transparent_huge_page_defrag)

-- `ShouldConfigTransparentHugePage`
unfoldable pub should_config_transparent_huge_page : NodeBootstrappingConfiguration → Option Bool
should_config_transparent_huge_page config =
    config.agent_pool_profile >>= λ profile. some (sets_huge_page profile.custom_linux_os_config)

-- `GetTransparentHugePageEnabled`
unfoldable pub get_transparent_huge_page_enabled : NodeBootstrappingConfiguration → Option Text
get_transparent_huge_page_enabled config =
    config.agent_pool_profile >>= λ profile. some (enabled_of profile.custom_linux_os_config)

-- `GetTransparentHugePageDefrag`
unfoldable pub get_transparent_huge_page_defrag : NodeBootstrappingConfiguration → Option Text
get_transparent_huge_page_defrag config =
    config.agent_pool_profile >>= λ profile. some (defrag_of profile.custom_linux_os_config)

abbrev pub is_positive_pointer : Option ℤ → Bool
is_positive_pointer none = false
is_positive_pointer (some n) = is_positive n

-- `profile.CustomKubeletConfig.FailSwapOn`, where no pointer is nil, is false.
abbrev pub swap_allowed : Option CustomKubeletConfig → Bool
swap_allowed none = false
swap_allowed (some kubelet) = is_false kubelet.fail_swap_on

abbrev pub swap_size_positive : Option CustomLinuxOsConfig → Bool
swap_size_positive none = false
swap_size_positive (some os) = is_positive_pointer os.swap_file_size_mb

-- `ShouldConfigSwapFile`
unfoldable pub should_config_swap_file : NodeBootstrappingConfiguration → Option Bool
should_config_swap_file config = config.agent_pool_profile >>= λ profile. some (
    swap_allowed profile.custom_kubelet_config && swap_size_positive profile.custom_linux_os_config)

-- `GetSwapFileSizeMB`
unfoldable pub get_swap_file_size_mb : NodeBootstrappingConfiguration → Option ℤ
get_swap_file_size_mb config = do
  profile ← config.agent_pool_profile
  os ← profile.custom_linux_os_config
  os.swap_file_size_mb
