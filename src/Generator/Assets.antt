-- ===== src/Generator/Assets.antt =====
-- pkg/agent/const.go: the names of the assets that are rendered.
use agent_baker.Text.{Text, text}

-- `kubernetesCSEStartScript`
abbrev pub kubernetes_cse_start_script : Text
kubernetes_cse_start_script = text "linux/cloud-init/artifacts/cse_start.sh"

-- `kubernetesCSEMainScript`
abbrev pub kubernetes_cse_main_script : Text
kubernetes_cse_main_script = text "linux/cloud-init/artifacts/cse_main.sh"

-- `kubernetesCSEHelpersScript`
abbrev pub kubernetes_cse_helpers_script : Text
kubernetes_cse_helpers_script = text "linux/cloud-init/artifacts/cse_helpers.sh"

-- `kubernetesCSEHelpersScriptUbuntu`
abbrev pub kubernetes_cse_helpers_script_ubuntu : Text
kubernetes_cse_helpers_script_ubuntu =
    text "linux/cloud-init/artifacts/ubuntu/cse_helpers_ubuntu.sh"

-- `kubernetesCSEHelpersScriptMariner`
abbrev pub kubernetes_cse_helpers_script_mariner : Text
kubernetes_cse_helpers_script_mariner =
    text "linux/cloud-init/artifacts/mariner/cse_helpers_mariner.sh"

-- `kubernetesCSEInstall`
abbrev pub kubernetes_cse_install : Text
kubernetes_cse_install = text "linux/cloud-init/artifacts/cse_install.sh"

-- `kubernetesCSEInstallUbuntu`
abbrev pub kubernetes_cse_install_ubuntu : Text
kubernetes_cse_install_ubuntu = text "linux/cloud-init/artifacts/ubuntu/cse_install_ubuntu.sh"

-- `kubernetesCSEInstallMariner`
abbrev pub kubernetes_cse_install_mariner : Text
kubernetes_cse_install_mariner = text "linux/cloud-init/artifacts/mariner/cse_install_mariner.sh"

-- `kubernetesCSEConfig`
abbrev pub kubernetes_cse_config : Text
kubernetes_cse_config = text "linux/cloud-init/artifacts/cse_config.sh"

-- `kubernetesCustomSearchDomainsScript`
abbrev pub kubernetes_custom_search_domains_script : Text
kubernetes_custom_search_domains_script =
    text "linux/cloud-init/artifacts/setup-custom-search-domains.sh"

-- `dhcpv6SystemdService`
abbrev pub dhcpv6_systemd_service : Text
dhcpv6_systemd_service = text "linux/cloud-init/artifacts/dhcpv6.service"

-- `dhcpv6ConfigurationScript`
abbrev pub dhcpv6_configuration_script : Text
dhcpv6_configuration_script = text "linux/cloud-init/artifacts/enable-dhcpv6.sh"

-- `kubeletSystemdService`
abbrev pub kubelet_systemd_service : Text
kubelet_systemd_service = text "linux/cloud-init/artifacts/kubelet.service"

-- `reconcilePrivateHostsScript`
abbrev pub reconcile_private_hosts_script : Text
reconcile_private_hosts_script = text "linux/cloud-init/artifacts/reconcile-private-hosts.sh"

-- `reconcilePrivateHostsService`
abbrev pub reconcile_private_hosts_service : Text
reconcile_private_hosts_service = text "linux/cloud-init/artifacts/reconcile-private-hosts.service"

-- `updateNodeLabelsSystemdService`
abbrev pub update_node_labels_systemd_service : Text
update_node_labels_systemd_service = text "linux/cloud-init/artifacts/update-node-labels.service"

-- `updateNodeLabelsScript`
abbrev pub update_node_labels_script : Text
update_node_labels_script = text "linux/cloud-init/artifacts/update-node-labels.sh"

-- `ensureNoDupEbtablesScript`
abbrev pub ensure_no_dup_ebtables_script : Text
ensure_no_dup_ebtables_script = text "linux/cloud-init/artifacts/ensure-no-dup.sh"

-- `ensureNoDupEbtablesService`
abbrev pub ensure_no_dup_ebtables_service : Text
ensure_no_dup_ebtables_service = text "linux/cloud-init/artifacts/ensure-no-dup.service"

-- `bindMountScript`
abbrev pub bind_mount_script : Text
bind_mount_script = text "linux/cloud-init/artifacts/bind-mount.sh"

-- `bindMountSystemdService`
abbrev pub bind_mount_systemd_service : Text
bind_mount_systemd_service = text "linux/cloud-init/artifacts/bind-mount.service"

-- `migPartitionSystemdService`
abbrev pub mig_partition_systemd_service : Text
mig_partition_systemd_service = text "linux/cloud-init/artifacts/mig-partition.service"

-- `migPartitionScript`
abbrev pub mig_partition_script : Text
mig_partition_script = text "linux/cloud-init/artifacts/mig-partition.sh"

-- `kubeadmConfig`
abbrev pub kubeadm_config : Text
kubeadm_config = text "linux/cloud-init/artifacts/kubeadm-config.yaml"

-- `cloudControllerManager`
abbrev pub cloud_controller_manager : Text
cloud_controller_manager = text "linux/cloud-init/artifacts/cloud-controller-manager.yaml"

-- `ipMasqAgentConfigmap`
abbrev pub ip_masq_agent_configmap : Text
ip_masq_agent_configmap = text "linux/cloud-init/artifacts/ip-masq-agent-configmap.yaml"

-- `corednsAddonManifest`
abbrev pub coredns_addon_manifest : Text
coredns_addon_manifest = text "linux/cloud-init/artifacts/coredns.yaml"

-- `kubeproxyAddonManifest`
abbrev pub kubeproxy_addon_manifest : Text
kubeproxy_addon_manifest = text "linux/cloud-init/artifacts/kube-proxy.yaml"

-- `initAKSCustomCloudScript`
abbrev pub init_aks_custom_cloud_script : Text
init_aks_custom_cloud_script = text "linux/cloud-init/artifacts/init-aks-custom-cloud.sh"

-- `kubernetesCISScript`
abbrev pub kubernetes_cis_script : Text
kubernetes_cis_script = text "linux/cloud-init/artifacts/cis.sh"

-- `kmsSystemdService`
abbrev pub kms_systemd_service : Text
kms_systemd_service = text "linux/cloud-init/artifacts/kms.service"

-- `aptPreferences`
abbrev pub apt_preferences : Text
apt_preferences = text "linux/cloud-init/artifacts/apt-preferences"

-- `kubernetesHealthMonitorScript`
abbrev pub kubernetes_health_monitor_script : Text
kubernetes_health_monitor_script = text "linux/cloud-init/artifacts/health-monitor.sh"

-- `kubernetesKubeletMonitorSystemdService`
abbrev pub kubernetes_kubelet_monitor_systemd_service : Text
kubernetes_kubelet_monitor_systemd_service =
    text "linux/cloud-init/artifacts/kubelet-monitor.service"

-- `kubernetesDockerMonitorSystemdService`
abbrev pub kubernetes_docker_monitor_systemd_service : Text
kubernetes_docker_monitor_systemd_service = text "linux/cloud-init/artifacts/docker-monitor.service"

-- `kubernetesDockerMonitorSystemdTimer`
abbrev pub kubernetes_docker_monitor_systemd_timer : Text
kubernetes_docker_monitor_systemd_timer = text "linux/cloud-init/artifacts/docker-monitor.timer"

-- `kubernetesContainerdMonitorSystemdService`
abbrev pub kubernetes_containerd_monitor_systemd_service : Text
kubernetes_containerd_monitor_systemd_service =
    text "linux/cloud-init/artifacts/containerd-monitor.service"

-- `kubernetesContainerdMonitorSystemdTimer`
abbrev pub kubernetes_containerd_monitor_systemd_timer : Text
kubernetes_containerd_monitor_systemd_timer =
    text "linux/cloud-init/artifacts/containerd-monitor.timer"

-- `dockerClearMountPropagationFlags`
abbrev pub docker_clear_mount_propagation_flags : Text
docker_clear_mount_propagation_flags =
    text "linux/cloud-init/artifacts/docker_clear_mount_propagation_flags.conf"

-- `kubernetesNodeCustomDataYaml`
abbrev pub kubernetes_node_custom_data_yaml : Text
kubernetes_node_custom_data_yaml = text "linux/cloud-init/nodecustomdata.yml"

-- `kubernetesCSECommandString`
abbrev pub kubernetes_cse_command_string : Text
kubernetes_cse_command_string = text "linux/cloud-init/artifacts/cse_cmd.sh"

-- `kubernetesWindowsAgentCSECommandPS1`
abbrev pub kubernetes_windows_agent_cse_command_ps1 : Text
kubernetes_windows_agent_cse_command_ps1 = text "windows/csecmd.ps1"

-- `kubernetesWindowsAgentCustomDataPS1`
abbrev pub kubernetes_windows_agent_custom_data_ps1 : Text
kubernetes_windows_agent_custom_data_ps1 = text "windows/kuberneteswindowssetup.ps1"

-- `kubernetesWindowsAgentFunctionsPS1`
abbrev pub kubernetes_windows_agent_functions_ps1 : Text
kubernetes_windows_agent_functions_ps1 = text "windows/kuberneteswindowsfunctions.ps1"

-- `kubernetesWindowsConfigFunctionsPS1`
abbrev pub kubernetes_windows_config_functions_ps1 : Text
kubernetes_windows_config_functions_ps1 = text "windows/windowsconfigfunc.ps1"

-- `kubernetesWindowsContainerdFunctionsPS1`
abbrev pub kubernetes_windows_containerd_functions_ps1 : Text
kubernetes_windows_containerd_functions_ps1 = text "windows/windowscontainerdfunc.ps1"

-- `kubernetesWindowsCsiProxyFunctionsPS1`
abbrev pub kubernetes_windows_csi_proxy_functions_ps1 : Text
kubernetes_windows_csi_proxy_functions_ps1 = text "windows/windowscsiproxyfunc.ps1"

-- `kubernetesWindowsKubeletFunctionsPS1`
abbrev pub kubernetes_windows_kubelet_functions_ps1 : Text
kubernetes_windows_kubelet_functions_ps1 = text "windows/windowskubeletfunc.ps1"

-- `kubernetesWindowsCniFunctionsPS1`
abbrev pub kubernetes_windows_cni_functions_ps1 : Text
kubernetes_windows_cni_functions_ps1 = text "windows/windowscnifunc.ps1"

-- `kubernetesWindowsAzureCniFunctionsPS1`
abbrev pub kubernetes_windows_azure_cni_functions_ps1 : Text
kubernetes_windows_azure_cni_functions_ps1 = text "windows/windowsazurecnifunc.ps1"

-- `kubernetesWindowsHostsConfigAgentFunctionsPS1`
abbrev pub kubernetes_windows_hosts_config_agent_functions_ps1 : Text
kubernetes_windows_hosts_config_agent_functions_ps1 = text "windows/windowshostsconfigagentfunc.ps1"

-- `kubernetesWindowsOpenSSHFunctionPS1`
abbrev pub kubernetes_windows_open_ssh_function_ps1 : Text
kubernetes_windows_open_ssh_function_ps1 = text "windows/windowsinstallopensshfunc.ps1"

-- `kubernetesWindowsCalicoFunctionPS1`
abbrev pub kubernetes_windows_calico_function_ps1 : Text
kubernetes_windows_calico_function_ps1 = text "windows/windowscalicofunc.ps1"

-- `kubernetesWindowsCSEHelperPS1`
abbrev pub kubernetes_windows_cse_helper_ps1 : Text
kubernetes_windows_cse_helper_ps1 = text "windows/windowscsehelper.ps1"

-- `kubernetesWindowsHypervtemplatetoml`
abbrev pub kubernetes_windows_hypervtemplatetoml : Text
kubernetes_windows_hypervtemplatetoml = text "windows/containerdtemplate.toml"
