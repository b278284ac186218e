-- ===== src/Generator/Rules.antt =====
-- pkg/agent/utils.go: fragments of resource templates, and the public keys for PowerShell.
pub mod Keys
use agent_baker.Prelude.{
  ℕ, zero, suc, ◌+◌, ◌-◌, Bool, true, false, List, [], ◌∷◌, ◌++◌, map, length, ltb, Option, none,
  some, if◌then◌else◌,
}
use agent_baker.Prelude.Int.{ℤ, pos, negsuc}
use agent_baker.Text.{Text, text, concat, trim_space}
use agent_baker.Text.Number.{format_int}
use agent_baker.Datamodel.Profiles.{PublicKey}
use agent_baker.Datamodel.Os.{LinuxProfile}
use agent_baker.Datamodel.Cluster.{AgentPoolProfile, Properties}
use agent_baker.Datamodel.Bootstrapping.{NodeBootstrappingConfiguration}
use agent_baker.Prelude.Panic.{◌>>=◌}
use agent_baker.Methods.Cluster.{pools}
use agent_baker.Methods.Naming.{get_cluster_id}
use agent_baker.Template.Access.{properties_of}

abbrev subnet_dependency : AgentPoolProfile → Text
subnet_dependency a =
    text "        \"[concat('Microsoft.Network/networkSecurityGroups/', variables('"
    ++ (a.name ++ text "NSGName'))]\"")

-- The loop of `getVNETSubnetDependencies` from index `i` on; a nil pool is followed.
abbrev dependencies_from : ℕ → List (Option AgentPoolProfile) → Option Text
dependencies_from i [] = some []
dependencies_from i (none ∷ profiles) = none
dependencies_from i (some a ∷ profiles) = do
  rest ← dependencies_from (suc i) profiles
  some ((if ltb 0 i then text ",\n" else []) ++ (subnet_dependency a ++ rest))

-- `getVNETSubnetDependencies`
unfoldable pub get_vnet_subnet_dependencies : Properties → Option Text
get_vnet_subnet_dependencies properties = dependencies_from 0 (pools properties.agent_pool_profiles)

-- `getLBRule`
unfoldable pub get_lb_rule : Text → ℤ → Text
get_lb_rule name port = concat (
    text "\t          {\n            \"name\": \"LBRule"
    ∷ format_int port
    ∷ text
        "\",\n            \"properties\": {\n              \"backendAddressPool\": {\n                \"id\": \"[concat(variables('"
    ∷ name
    ∷ text "LbID'), '/backendAddressPools/', variables('"
    ∷ name
    ∷ text "LbBackendPoolName'))]\"\n              },\n              \"backendPort\": "
    ∷ format_int port
    ∷ text
        ",\n              \"enableFloatingIP\": false,\n              \"frontendIPConfiguration\": {\n                \"id\": \"[variables('"
    ∷ name
    ∷ text "LbIPConfigID')]\"\n              },\n              \"frontendPort\": "
    ∷ format_int port
    ∷ text
        ",\n              \"idleTimeoutInMinutes\": 5,\n              \"loadDistribution\": \"Default\",\n              \"probe\": {\n                \"id\": \"[concat(variables('"
    ∷ name
    ∷ text "LbID'),'/probes/tcp"
    ∷ format_int port
    ∷ text
        "Probe')]\"\n              },\n              \"protocol\": \"Tcp\"\n            }\n          }"
    ∷ [])

-- `BaseLBPriority+portIndex`
abbrev priority : ℤ → ℤ
priority (pos n) = pos (200 + n)
priority (negsuc n) = if ltb n 200 then pos (199 - n) else negsuc (n - 200)

-- `getSecurityRule`
unfoldable pub get_security_rule : ℤ → ℤ → Text
get_security_rule port port_index = concat (
    text "          {\n            \"name\": \"Allow_"
    ∷ format_int port
    ∷ text
        "\",\n            \"properties\": {\n              \"access\": \"Allow\",\n              \"description\": \"Allow traffic from the Internet to port "
    ∷ format_int port
    ∷ text
        "\",\n              \"destinationAddressPrefix\": \"*\",\n              \"destinationPortRange\": \""
    ∷ format_int port
    ∷ text "\",\n              \"direction\": \"Inbound\",\n              \"priority\": "
    ∷ format_int (priority port_index)
    ∷ text
        ",\n              \"protocol\": \"*\",\n              \"sourceAddressPrefix\": \"Internet\",\n              \"sourcePortRange\": \"*\"\n            }\n          }"
    ∷ [])

abbrev pub quoted_key : PublicKey → Text
quoted_key key = b'"' ∷ (trim_space key.key_data ++ b'"' ∷ [])

-- The loop of `getSSHPublicKeysPowerShell` from index `i` on, with `count` keys in all.
unfoldable pub keys_from : ℕ → ℕ → List PublicKey → Text
keys_from count i [] = []
keys_from count i (key ∷ public_keys) =
    quoted_key key
    ++ ((if ltb i (count - 1) then text ", " else []) ++ keys_from count (suc i) public_keys)

-- `getSSHPublicKeysPowerShell`
unfoldable pub get_ssh_public_keys_power_shell : Option LinuxProfile → Text
get_ssh_public_keys_power_shell none = []
get_ssh_public_keys_power_shell (some linux_profile) =
    keys_from (length linux_profile.ssh.public_keys) 0 linux_profile.ssh.public_keys

-- The template function `GetSshPublicKeysPowerShell` of pkg/agent/baker.go.
unfoldable pub template_get_ssh_public_keys : NodeBootstrappingConfiguration → Option Text
template_get_ssh_public_keys config =
    properties_of config >>= λ p. some (get_ssh_public_keys_power_shell p.linux_profile)

-- The template function `GetClusterID` of pkg/agent/baker.go, which makes the identifier as well.
unfoldable pub template_get_cluster_id :
    (Text → ℕ) → NodeBootstrappingConfiguration → Option (Text × Properties)
template_get_cluster_id random_uint32 config = properties_of config >>= get_cluster_id random_uint32
