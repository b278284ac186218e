-- ===== src/Template/Access.antt =====
-- pkg/agent/baker.go: the paths that the template functions follow from the configuration.
use agent_baker.Prelude.{Option}
use agent_baker.Prelude.Panic.{◌>>=◌}
use agent_baker.Datamodel.Kubernetes.{KubernetesConfig, OrchestratorProfile}
use agent_baker.Datamodel.Cluster.{ContainerService, Properties}
use agent_baker.Datamodel.Bootstrapping.{NodeBootstrappingConfiguration}

-- `cs.Properties`, for `cs` the configuration's container service
abbrev pub properties_of : NodeBootstrappingConfiguration → Option Properties
properties_of config = config.container_service >>= ContainerService.properties

-- `cs.Properties.OrchestratorProfile`
abbrev pub orchestrator_of : NodeBootstrappingConfiguration → Option OrchestratorProfile
orchestrator_of config = properties_of config >>= Properties.orchestrator_profile

-- `cs.Properties.OrchestratorProfile.KubernetesConfig`, followed
abbrev pub kubernetes_of : NodeBootstrappingConfiguration → Option KubernetesConfig
kubernetes_of config = orchestrator_of config >>= OrchestratorProfile.kubernetes_config
