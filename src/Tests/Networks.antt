-- ===== src/Tests/Networks.antt =====
-- The names of a cluster's network, at a cluster of one agent pool.
use agent_baker.Prelude.{◌≡◌, refl, [], ◌∷◌, some, arith, All, true}
use agent_baker.Text.{Text, text, join}
use agent_baker.Datamodel.Cluster.{
  AgentPoolProfile, Properties, zero_agent_pool_profile, zero_properties,
}
use agent_baker.Cluster.{
  is_custom_vnet, all_custom_vnet, get_subnet_name, get_virtual_network_name,
  get_vnet_resource_group_name,
}
use agent_baker.Cluster.Network.{segments, subnet_id, IsSegment, get_subnet_name_lem}

abbrev id : Text
id = subnet_id (text "s-1") (text "group") (text "network") (text "subnet")

abbrev pool : AgentPoolProfile
pool = record zero_agent_pool_profile { vnet_subnet_id = id }

abbrev properties : Properties
properties = record zero_properties { agent_pool_profiles = some (some pool ∷ []) }

pool_custom : all_custom_vnet (some pool ∷ []) ≡ some true
unfolding all_custom_vnet is_custom_vnet subnet_id join text
pool_custom = refl

id-segments : All IsSegment (segments (text "s-1") (text "group") (text "network") (text "subnet"))
unfolding text
id-segments = ground arith

get_subnet_name_lem_example :
    (get_subnet_name properties ≡ some (text "subnet"))
    × (get_virtual_network_name (text "12345678") properties ≡ some (text "network"))
    × (get_vnet_resource_group_name properties ≡ some (text "group"))
get_subnet_name_lem_example =
    get_subnet_name_lem properties pool [] (text "12345678") (text "s-1") (text "group")
      (text "network") (text "subnet") refl pool_custom refl id-segments
