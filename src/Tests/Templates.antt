-- ===== src/Tests/Templates.antt =====
-- The template functions and the names of a cluster, at one configuration.
use agent_baker.Prelude.{ℕ, true, false, [], ◌∷◌, ◌≡◌, ◌⊎◌, none, some}
use agent_baker.Text.{Text, text}
use agent_baker.Datamodel.Os.{zero_linux_profile}
use agent_baker.Datamodel.Profiles.{zero_hosted_master_profile}
use agent_baker.Datamodel.Kubernetes.{
  KubernetesConfig, zero_kubernetes_config, zero_orchestrator_profile,
}
use agent_baker.Datamodel.Cluster.{
  Properties, zero_agent_pool_profile, zero_container_service, zero_properties,
}
use agent_baker.Datamodel.Bootstrapping.{
  NodeBootstrappingConfiguration, zero_node_bootstrapping_configuration,
}
use agent_baker.Methods.Naming.{get_cluster_id}
use agent_baker.Methods.Naming.Settled.{IsSettled, follows_nil, get_cluster_id-IsSettled}
use agent_baker.Template.Runtime.{has_data_dir, get_data_dir}
use agent_baker.Template.Runtime.Directory.{is_set, has_data_dir_lem}
use agent_baker.Template.Runtime.Choice.{IsConsistent, IsConsistent-runtime}
use agent_baker.Template.Network.{
  has_custom_search_domain, get_search_domain_name, get_search_domain_realm_user,
  get_search_domain_realm_password,
}
use agent_baker.Template.Network.SearchDomain.{has_custom_search_domain_lem}

abbrev kubernetes : KubernetesConfig
kubernetes = record zero_kubernetes_config {
  container_runtime = text "containerd";
  container_runtime_config = some ((text "dataDir", text "/mnt/docker") ∷ []);
}

abbrev properties : Properties
properties = record zero_properties {
  orchestrator_profile = some (record zero_orchestrator_profile {
    orchestrator_type = text "Kubernetes";
    kubernetes_config = some kubernetes;
  });
  hosted_master_profile = some (record zero_hosted_master_profile { dns_prefix = text "west" });
  linux_profile = some (record zero_linux_profile {
    custom_search_domain = some (record {
      name = text "contoso.com";
      realm_user = text "admin";
      realm_password = text "secret";
    });
  });
}

abbrev config : NodeBootstrappingConfiguration
config = record zero_node_bootstrapping_configuration {
  container_service = some (record zero_container_service { properties = some properties });
  agent_pool_profile = some (record zero_agent_pool_profile {
    kubernetes_config = some (record zero_kubernetes_config { container_runtime = text "docker" });
  });
}

has_data_dir_lem_example : has_data_dir config ≡ is_set (get_data_dir config)
has_data_dir_lem_example = has_data_dir_lem config

IsConsistent-runtime_example : IsConsistent config
IsConsistent-runtime_example = IsConsistent-runtime config

has_custom_search_domain_lem_example :
    (has_custom_search_domain config ≡ is_set (get_search_domain_name config))
    × (has_custom_search_domain config ≡ is_set (get_search_domain_realm_user config))
    × (has_custom_search_domain config ≡ is_set (get_search_domain_realm_password config))
has_custom_search_domain_lem_example = has_custom_search_domain_lem config

abbrev forty_two : Text → ℕ
forty_two name = 42

get_cluster_id-IsSettled_example :
    ((follows_nil properties ≡ false) × IsSettled forty_two properties)
    ⊎ ((follows_nil properties ≡ true) × (get_cluster_id forty_two properties ≡ none))
get_cluster_id-IsSettled_example = get_cluster_id-IsSettled forty_two properties
