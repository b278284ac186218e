-- ===== src/Template/Files.antt =====
-- pkg/agent/baker.go, `getContainerServiceFuncMap`: paths on the node (pkg/agent/const.go), and the
-- braces of templates inside templates.
use agent_baker.Text.{Text, text}

-- `GetInitAKSCustomCloudFilepath`
unfoldable pub get_init_aks_custom_cloud_filepath : Text
get_init_aks_custom_cloud_filepath = text "/opt/azure/containers/init-aks-custom-cloud.sh"

-- `GetCSEHelpersScriptFilepath`
unfoldable pub get_cse_helpers_script_filepath : Text
get_cse_helpers_script_filepath = text "/opt/azure/containers/provision_source.sh"

-- `GetCSEHelpersScriptDistroFilepath`
unfoldable pub get_cse_helpers_script_distro_filepath : Text
get_cse_helpers_script_distro_filepath = text "/opt/azure/containers/provision_source_distro.sh"

-- `GetCSEInstallScriptFilepath`
unfoldable pub get_cse_install_script_filepath : Text
get_cse_install_script_filepath = text "/opt/azure/containers/provision_installs.sh"

-- `GetCSEInstallScriptDistroFilepath`
unfoldable pub get_cse_install_script_distro_filepath : Text
get_cse_install_script_distro_filepath = text "/opt/azure/containers/provision_installs_distro.sh"

-- `GetCSEConfigScriptFilepath`
unfoldable pub get_cse_config_script_filepath : Text
get_cse_config_script_filepath = text "/opt/azure/containers/provision_configs.sh"

-- `GetCustomSearchDomainsCSEScriptFilepath`
unfoldable pub get_custom_search_domains_cse_script_filepath : Text
get_custom_search_domains_cse_script_filepath =
    text "/opt/azure/containers/setup-custom-search-domains.sh"

-- `GetDHCPv6ServiceCSEScriptFilepath`
unfoldable pub get_dhcpv6_service_cse_script_filepath : Text
get_dhcpv6_service_cse_script_filepath = text "/etc/systemd/system/dhcpv6.service"

-- `GetDHCPv6ConfigCSEScriptFilepath`
unfoldable pub get_dhcpv6_config_cse_script_filepath : Text
get_dhcpv6_config_cse_script_filepath = text "/opt/azure/containers/enable-dhcpv6.sh"

-- `OpenBraces`
unfoldable pub open_braces : Text
open_braces = text "{{"

-- `CloseBraces`
unfoldable pub close_braces : Text
close_braces = text "}}"
