-- ===== src/Methods/Kubernetes.antt =====
-- pkg/agent/datamodel/types.go: the methods of `KubernetesConfig`, `KubernetesAddon` and
-- `OrchestratorProfile`.
use agent_baker.Prelude.{
  ℕ, ◌+◌, Bool, false, not, ◌&&◌, ◌||◌, List, [], ◌∷◌, Option, none, some, is_some, if◌then◌else◌,
}
use agent_baker.Prelude.Panic.{◌>>=◌}
use agent_baker.Prelude.Int.{ℤ, pos, negsuc}
use agent_baker.Text.{Text, text, is_empty, equal_fold}
use agent_baker.Datamodel.Cloud.{AzureEnvironmentSpecConfig}
use agent_baker.Datamodel.Kubernetes.{
  KubernetesAddon, KubernetesConfig, KubernetesContainerSpec, OrchestratorProfile,
  zero_kubernetes_addon,
}

-- `to.Bool` of github.com/Azure/go-autorest, and the same test written out: false for nil.
abbrev pub bool_or_false : Option Bool → Bool
bool_or_false none = false
bool_or_false (some b) = b

-- `KubernetesAddon.IsEnabled`
unfoldable pub is_enabled : KubernetesAddon → Bool
is_enabled a = bool_or_false a.enabled

abbrev pub is_false : Option Bool → Bool
is_false none = false
is_false (some b) = not b

-- `KubernetesAddon.IsDisabled`
unfoldable pub is_disabled : KubernetesAddon → Bool
is_disabled a = is_false a.enabled

-- The loop of `GetAddonContainersIndexByName`, at index `i`; -1 for no such container.
abbrev pub container_index : Text → ℕ → List KubernetesContainerSpec → ℤ
container_index name i [] = negsuc 0
container_index name i (c ∷ containers) =
    if equal_fold c.name name then pos i else container_index name (i + 1) containers

-- `KubernetesAddon.GetAddonContainersIndexByName`
unfoldable pub get_addon_containers_index_by_name : KubernetesAddon → Text → ℤ
get_addon_containers_index_by_name a container_name = container_index container_name 0 a.containers

-- The loop of `GetAddonByName`: the zero addon where no name fits.
unfoldable pub addon_named : Text → List KubernetesAddon → KubernetesAddon
addon_named addon_name [] = zero_kubernetes_addon
addon_named addon_name (addon ∷ addons) =
    if equal_fold addon.name addon_name then addon else addon_named addon_name addons

-- `KubernetesConfig.GetAddonByName`
unfoldable pub get_addon_by_name : KubernetesConfig → Text → KubernetesAddon
get_addon_by_name k addon_name = addon_named addon_name k.addons

-- `KubernetesConfig.IsAddonEnabled`
unfoldable pub is_addon_enabled : KubernetesConfig → Text → Bool
is_addon_enabled k addon_name = is_enabled (get_addon_by_name k addon_name)

-- `KubernetesConfig.IsAddonDisabled`
unfoldable pub is_addon_disabled : KubernetesConfig → Text → Bool
is_addon_disabled k addon_name = is_disabled (get_addon_by_name k addon_name)

-- `KubernetesConfig.IsIPMasqAgentEnabled`
unfoldable pub is_ip_masq_addon_enabled : KubernetesConfig → Bool
is_ip_masq_addon_enabled k = is_addon_enabled k (text "ip-masq-agent")

-- `KubernetesConfig.IsIPMasqAgentDisabled`
unfoldable pub is_ip_masq_addon_disabled : KubernetesConfig → Bool
is_ip_masq_addon_disabled k = is_addon_disabled k (text "ip-masq-agent")

-- `KubernetesConfig.IsAADPodIdentityEnabled`
unfoldable pub is_aad_pod_identity_enabled : KubernetesConfig → Bool
is_aad_pod_identity_enabled k = is_addon_enabled k (text "aad-pod-identity")

-- `KubernetesConfig.PrivateJumpboxProvision`; a private cluster whose `Enabled` is nil panics.
unfoldable pub private_jumpbox_provision : Option KubernetesConfig → Option Bool
private_jumpbox_provision none = some false
private_jumpbox_provision (some k) = elim k.private_cluster [
  | none ↦ some false
  | some cluster ↦ cluster.enabled >>= λ enabled. some (enabled && is_some cluster.jumpbox_profile)
]

-- `KubernetesConfig.IsRBACEnabled`
unfoldable pub is_rbac_enabled : KubernetesConfig → Bool
is_rbac_enabled k = bool_or_false k.enable_rbac

-- `KubernetesConfig.UserAssignedIDEnabled`
unfoldable pub user_assigned_id_enabled : KubernetesConfig → Bool
user_assigned_id_enabled k = k.use_managed_identity && not (is_empty k.user_assigned_id)

-- `KubernetesConfig.NeedsContainerd`
unfoldable pub needs_containerd : KubernetesConfig → Bool
needs_containerd k =
    equal_fold k.container_runtime (text "kata-containers")
    || equal_fold k.container_runtime (text "containerd")

-- `KubernetesConfig.RequiresDocker`
unfoldable pub requires_docker : Option KubernetesConfig → Bool
requires_docker none = false
requires_docker (some k) =
    equal_fold k.container_runtime (text "docker") || is_empty k.container_runtime

-- `KubernetesConfig.GetAzureCNIURLLinux`
unfoldable pub get_azure_cniurl_linux :
    KubernetesConfig → Option AzureEnvironmentSpecConfig → Option Text
get_azure_cniurl_linux k cloud_spec_config =
    if not (is_empty k.azure_cniurl_linux)
    then some k.azure_cniurl_linux
    else cloud_spec_config >>= λ cloud.
        some cloud.kubernetes_spec_config.vnet_cni_linux_plugins_download_url

-- `KubernetesConfig.GetAzureCNIURLWindows`
unfoldable pub get_azure_cniurl_windows :
    KubernetesConfig → Option AzureEnvironmentSpecConfig → Option Text
get_azure_cniurl_windows k cloud_spec_config =
    if not (is_empty k.azure_cniurl_windows)
    then some k.azure_cniurl_windows
    else cloud_spec_config >>= λ cloud.
        some cloud.kubernetes_spec_config.vnet_cni_windows_plugins_download_url

abbrev plugin_is_azure : Option KubernetesConfig → Bool
plugin_is_azure none = false
plugin_is_azure (some k) = equal_fold k.network_plugin (text "azure")

-- `OrchestratorProfile.IsAzureCNI`
unfoldable pub is_azure_cni : OrchestratorProfile → Bool
is_azure_cni o = plugin_is_azure o.kubernetes_config
