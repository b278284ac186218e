-- ===== src/Cluster/Network.antt =====
-- The names that are read out of a subnet's identifier.
use agent_baker.Prelude.{
  Option, ℕ, true, List, [], ◌∷◌, ◌≡◌, refl, arith, some, All, ◌==◌, get_elem?,
}
use agent_baker.Text.{Text, text, split, join}
use agent_baker.Text.Split.{Lacks, split-join}
use agent_baker.Datamodel.Cluster.{AgentPoolProfile, Properties}
use agent_baker.Cluster.{
  all_custom_vnet, are_agent_profiles_custom_vnet, first_profile, subnet_id_segment,
  get_subnet_name, get_virtual_network_name, get_vnet_resource_group_name,
}

abbrev pub IsSegment : Text → Type 0
IsSegment = Lacks (λ c. c == b'/')

-- The identifier of a subnet, as Azure writes it.
abbrev pub segments : Text → Text → Text → Text → List Text
segments subscription group network subnet =
    text "subscriptions"
    ∷ subscription
    ∷ text "resourceGroups"
    ∷ group
    ∷ text "providers"
    ∷ text "Microsoft.Network"
    ∷ text "virtualNetworks"
    ∷ network
    ∷ text "subnets"
    ∷ subnet
    ∷ []

unfoldable pub subnet_id : Text → Text → Text → Text → Text
subnet_id subscription group network subnet =
    join ([] ∷ segments subscription group network subnet) (b'/' ∷ [])

segments-Lacks :
    (subscription group network subnet : Text)
    → IsSegment subscription
    → IsSegment group
    → IsSegment network
    → IsSegment subnet
    → All IsSegment (segments subscription group network subnet)
unfolding text
segments-Lacks subscription group network subnet s g n b = ground (arith, s, g, n, b)

split-subnet_id :
    (subscription group network subnet : Text)
    → All IsSegment (segments subscription group network subnet)
    → split (subnet_id subscription group network subnet) b'/'
      ≡ [] ∷ segments subscription group network subnet
unfolding subnet_id
split-subnet_id subscription group network subnet h =
    split-join b'/' [] (segments subscription group network subnet) tt h

module _ (p : Properties) (a : AgentPoolProfile) (rest : List (Option AgentPoolProfile)) where
  custom :
      p.agent_pool_profiles ≡ some (some a ∷ rest)
      → all_custom_vnet (some a ∷ rest) ≡ some true
      → are_agent_profiles_custom_vnet p.agent_pool_profiles ≡ some true
  unfolding are_agent_profiles_custom_vnet
  custom e h = rw (e, h) refl

  segment_of :
      (id : List Text) (index : ℕ)
      → p.agent_pool_profiles ≡ some (some a ∷ rest)
      → split a.vnet_subnet_id b'/' ≡ id
      → subnet_id_segment p index ≡ get_elem? id index
  unfolding subnet_id_segment first_profile
  segment_of id index e h = rw (e, h) refl

-- If every agent pool has a subnet and the first one's identifier has the form that Azure writes,
-- the three functions return without a panic the subnet, the network and the resource group in it.
pub get_subnet_name_lem :
    (p : Properties) (a : AgentPoolProfile) (rest : List (Option AgentPoolProfile))
    (cluster_id subscription group network subnet : Text)
    → p.agent_pool_profiles ≡ some (some a ∷ rest)
    → all_custom_vnet (some a ∷ rest) ≡ some true
    → a.vnet_subnet_id ≡ subnet_id subscription group network subnet
    → All IsSegment (segments subscription group network subnet)
    → (get_subnet_name p ≡ some subnet)
      × (get_virtual_network_name cluster_id p ≡ some network)
      × (get_vnet_resource_group_name p ≡ some group)
unfolding get_subnet_name get_virtual_network_name get_vnet_resource_group_name
get_subnet_name_lem p a rest cluster_id subscription group network subnet e all_custom form h =
    let id = [] ∷ segments subscription group network subnet in
    let parts : split a.vnet_subnet_id b'/' ≡ id =
      rw form (split-subnet_id subscription group network subnet h) in
    (
      rw (custom p a rest e all_custom, segment_of p a rest id 10 e parts) refl,
      rw (custom p a rest e all_custom, segment_of p a rest id 8 e parts) refl,
      rw (custom p a rest e all_custom, segment_of p a rest id 4 e parts) refl,
    )
