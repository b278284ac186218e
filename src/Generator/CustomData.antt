-- ===== src/Generator/CustomData.antt =====
-- pkg/agent/variables.go, `getCustomDataVariables`: the scripts in the custom data of a Linux node;
-- utils.go: how a script is packed.
use agent_baker.Prelude.{Bool, true, false, not, List, [], ◌∷◌, ◌++◌, Option, some}
use agent_baker.Prelude.Panic.{◌>>=◌}
use agent_baker.Text.{Text, text, replace_all}
use agent_baker.Text.Base64.{base64_encode}
use agent_baker.Datamodel.Bootstrapping.{NodeBootstrappingConfiguration}
use agent_baker.Methods.Cluster.{is_vhd_distro_for_all_nodes, service_is_aks_custom_cloud}
use agent_baker.Generator.Params.{ParamsMap, empty, entry, string_value, map_value}
use agent_baker.Generator.Assets.{
  apt_preferences, bind_mount_script, bind_mount_systemd_service, cloud_controller_manager,
  coredns_addon_manifest, dhcpv6_configuration_script, dhcpv6_systemd_service,
  docker_clear_mount_propagation_flags, ensure_no_dup_ebtables_script,
  ensure_no_dup_ebtables_service, init_aks_custom_cloud_script, ip_masq_agent_configmap,
  kms_systemd_service, kubeadm_config, kubelet_systemd_service, kubeproxy_addon_manifest,
  kubernetes_cis_script, kubernetes_containerd_monitor_systemd_service,
  kubernetes_containerd_monitor_systemd_timer, kubernetes_cse_config, kubernetes_cse_helpers_script,
  kubernetes_cse_helpers_script_mariner, kubernetes_cse_helpers_script_ubuntu,
  kubernetes_cse_install, kubernetes_cse_install_mariner, kubernetes_cse_install_ubuntu,
  kubernetes_cse_main_script, kubernetes_cse_start_script, kubernetes_custom_search_domains_script,
  kubernetes_docker_monitor_systemd_service, kubernetes_docker_monitor_systemd_timer,
  kubernetes_health_monitor_script, kubernetes_kubelet_monitor_systemd_service,
  mig_partition_script, mig_partition_systemd_service, reconcile_private_hosts_script,
  reconcile_private_hosts_service, update_node_labels_script, update_node_labels_systemd_service,
}

-- `getBase64EncodedGzippedCustomScriptFromStr`; `gzip` is package compress/gzip.
unfoldable pub get_base64_encoded_gzipped_custom_script_from_str : (Text → Text) → Text → Text
get_base64_encoded_gzipped_custom_script_from_str gzip str = base64_encode (gzip str)

-- `getBase64EncodedGzippedCustomScript`. `render` is the generated asset of that name, executed by
-- text/template with the functions of the configuration; `none` is a panic.
unfoldable pub get_base64_encoded_gzipped_custom_script :
    (Text → NodeBootstrappingConfiguration → Option Text)
    → (Text → Text)
    → Text
    → NodeBootstrappingConfiguration
    → Option Text
get_base64_encoded_gzipped_custom_script render gzip cs_filename config = do
  cs_str ← render cs_filename config
  some (
      get_base64_encoded_gzipped_custom_script_from_str gzip
        (replace_all cs_str (13 ∷ 10 ∷ []) (10 ∷ [])))

-- The scripts of every node, by the names of their variables.
abbrev pub common_scripts : List (Text × Text)
common_scripts =
    (text "provisionStartScript", kubernetes_cse_start_script)
    ∷ (text "provisionScript", kubernetes_cse_main_script)
    ∷ (text "provisionSource", kubernetes_cse_helpers_script)
    ∷ (text "provisionSourceUbuntu", kubernetes_cse_helpers_script_ubuntu)
    ∷ (text "provisionSourceMariner", kubernetes_cse_helpers_script_mariner)
    ∷ (text "provisionInstalls", kubernetes_cse_install)
    ∷ (text "provisionInstallsUbuntu", kubernetes_cse_install_ubuntu)
    ∷ (text "provisionInstallsMariner", kubernetes_cse_install_mariner)
    ∷ (text "provisionConfigs", kubernetes_cse_config)
    ∷ (text "customSearchDomainsScript", kubernetes_custom_search_domains_script)
    ∷ (text "dhcpv6SystemdService", dhcpv6_systemd_service)
    ∷ (text "dhcpv6ConfigurationScript", dhcpv6_configuration_script)
    ∷ (text "kubeletSystemdService", kubelet_systemd_service)
    ∷ (text "reconcilePrivateHostsScript", reconcile_private_hosts_script)
    ∷ (text "reconcilePrivateHostsService", reconcile_private_hosts_service)
    ∷ (text "updateNodeLabelsSystemdService", update_node_labels_systemd_service)
    ∷ (text "updateNodeLabelsScript", update_node_labels_script)
    ∷ (text "ensureNoDupEbtablesScript", ensure_no_dup_ebtables_script)
    ∷ (text "ensureNoDupEbtablesService", ensure_no_dup_ebtables_service)
    ∷ (text "bindMountScript", bind_mount_script)
    ∷ (text "bindMountSystemdService", bind_mount_systemd_service)
    ∷ (text "migPartitionSystemdService", mig_partition_systemd_service)
    ∷ (text "migPartitionScript", mig_partition_script)
    ∷ (text "kubeadmconfig", kubeadm_config)
    ∷ (text "cloudcontrollermanager", cloud_controller_manager)
    ∷ (text "ipMasqAgentConfigmap", ip_masq_agent_configmap)
    ∷ (text "corednsAddonManifest", coredns_addon_manifest)
    ∷ (text "kubeproxyAddonManifest", kubeproxy_addon_manifest)
    ∷ []

-- The script of a custom cloud.
abbrev pub custom_cloud_scripts : List (Text × Text)
custom_cloud_scripts = (text "initAKSCustomCloud", init_aks_custom_cloud_script) ∷ []

-- The scripts of a cluster with nodes whose image does not hold them.
abbrev pub non_vhd_scripts : List (Text × Text)
non_vhd_scripts =
    (text "provisionCIS", kubernetes_cis_script)
    ∷ (text "kmsSystemdService", kms_systemd_service)
    ∷ (text "aptPreferences", apt_preferences)
    ∷ (text "healthMonitorScript", kubernetes_health_monitor_script)
    ∷ (text "kubeletMonitorSystemdService", kubernetes_kubelet_monitor_systemd_service)
    ∷ (text "dockerMonitorSystemdService", kubernetes_docker_monitor_systemd_service)
    ∷ (text "dockerMonitorSystemdTimer", kubernetes_docker_monitor_systemd_timer)
    ∷ (text "containerdMonitorSystemdService", kubernetes_containerd_monitor_systemd_service)
    ∷ (text "containerdMonitorSystemdTimer", kubernetes_containerd_monitor_systemd_timer)
    ∷ (text "dockerClearMountPropagationFlags", docker_clear_mount_propagation_flags)
    ∷ []

abbrev scripts_when : Bool → List (Text × Text) → List (Text × Text)
scripts_when true scripts = scripts
scripts_when false scripts = []

-- Each script packed, in the order of the code; no name stands twice.
unfoldable pub packed : (Text → Option Text) → List (Text × Text) → Option ParamsMap
packed script [] = some empty
packed script ((name, filename) ∷ scripts) = do
  content ← script filename
  rest ← packed script scripts
  some (entry name (string_value content) rest)

-- The scripts that a configuration asks for.
unfoldable pub custom_data_scripts : NodeBootstrappingConfiguration → Option (List (Text × Text))
custom_data_scripts config = do
  cs ← config.container_service
  properties ← cs.properties
  custom ← service_is_aks_custom_cloud cs
  vhd ← is_vhd_distro_for_all_nodes properties
  some (
      common_scripts
      ++ (scripts_when custom custom_cloud_scripts ++ scripts_when (not vhd) non_vhd_scripts))

-- `getCustomDataVariables`
unfoldable pub get_custom_data_variables :
    (Text → NodeBootstrappingConfiguration → Option Text)
    → (Text → Text)
    → NodeBootstrappingConfiguration
    → Option ParamsMap
get_custom_data_variables render gzip config = do
  scripts ← custom_data_scripts config
  cloud_init_data ←
      packed (λ filename. get_base64_encoded_gzipped_custom_script render gzip filename config)
        scripts
  some (entry (text "cloudInitData") (map_value cloud_init_data) empty)
