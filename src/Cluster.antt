-- ===== src/Cluster.antt =====
-- pkg/agent/datamodel/types.go: the methods of `Properties` that name the network of a cluster.
pub mod Network
use agent_baker.Prelude.{
  ℕ, zero, suc, Bool, true, false, not, ◌&&◌, List, [], ◌∷◌, ◌++◌, Option, none, some, is_some,
  get_elem?, if◌then◌else◌,
}
use agent_baker.Prelude.Panic.{◌>>=◌}
use agent_baker.Text.{Text, text, is_empty, equal_fold, split}
use agent_baker.Datamodel.Cluster.{AgentPoolProfile, Properties}
use agent_baker.Kubelet.CommandLine.{is_kubernetes}

-- `AgentPoolProfile.IsCustomVNET`
unfoldable pub is_custom_vnet : AgentPoolProfile → Bool
is_custom_vnet a = not (is_empty a.vnet_subnet_id)

-- The loop of `AreAgentProfilesCustomVNET`; a nil pool that it comes to is followed, which panics.
unfoldable pub all_custom_vnet : List (Option AgentPoolProfile) → Option Bool
all_custom_vnet [] = some true
all_custom_vnet (none ∷ profiles) = none
all_custom_vnet (some a ∷ profiles) =
    let rest = all_custom_vnet profiles in if not (is_custom_vnet a) then some false else rest

-- `Properties.AreAgentProfilesCustomVNET`
unfoldable pub are_agent_profiles_custom_vnet :
    Option (List (Option AgentPoolProfile)) → Option Bool
are_agent_profiles_custom_vnet none = some false
are_agent_profiles_custom_vnet (some profiles) = all_custom_vnet profiles

-- `Properties.K8sOrchestratorName`; a missing orchestrator profile is followed, which panics.
unfoldable pub k8s_orchestrator_name : Properties → Option Text
k8s_orchestrator_name p = do
  orchestrator ← p.orchestrator_profile
  some (
      if is_kubernetes orchestrator
      then (if is_some p.hosted_master_profile then text "aks" else text "k8s")
      else [])

-- `p.AgentPoolProfiles[0]`, followed
unfoldable pub first_profile : Option (List (Option AgentPoolProfile)) → Option AgentPoolProfile
first_profile none = none
first_profile (some profiles) = get_elem? profiles 0 >>= λ profile. profile

-- `strings.Split(p.AgentPoolProfiles[0].VnetSubnetID, "/")[index]`
unfoldable pub subnet_id_segment : Properties → ℕ → Option Text
subnet_id_segment p index = do
  profile ← first_profile p.agent_pool_profiles
  get_elem? (split profile.vnet_subnet_id b'/') index

-- `Properties.GetSubnetName`
unfoldable pub get_subnet_name : Properties → Option Text
get_subnet_name p = do
  custom ← are_agent_profiles_custom_vnet p.agent_pool_profiles
  if custom
      then subnet_id_segment p 10
      else (k8s_orchestrator_name p >>= λ name. some (name ++ text "-subnet"))

-- `Properties.GetVirtualNetworkName`; `cluster_id` is the result of `GetClusterID`.
unfoldable pub get_virtual_network_name : Text → Properties → Option Text
get_virtual_network_name cluster_id p = do
  custom ← are_agent_profiles_custom_vnet p.agent_pool_profiles
  if custom
      then subnet_id_segment p 8
      else (k8s_orchestrator_name p >>= λ name. some (name ++ (text "-vnet-" ++ cluster_id)))

-- `Properties.GetVNetResourceGroupName`
unfoldable pub get_vnet_resource_group_name : Properties → Option Text
get_vnet_resource_group_name p = do
  custom ← are_agent_profiles_custom_vnet p.agent_pool_profiles
  if custom then subnet_id_segment p 4 else some []
