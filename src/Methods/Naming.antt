-- ===== src/Methods/Naming.antt =====
-- pkg/agent/datamodel/types.go: the cluster's identifier, which is made once and kept, and the
-- names that are built from it. A method that makes the identifier also gives the properties as
-- it leaves them; `none` is a panic.
pub mod Settled
use agent_baker.Prelude.{
  ℕ, zero, suc, ◌-◌, Bool, true, false, List, [], ◌∷◌, ◌++◌, Option, none, some, length, take,
  replicate, leb, if◌then◌else◌,
}
use agent_baker.Prelude.Panic.{◌>>=◌}
use agent_baker.Prelude.Int.{ℤ, pos, negsuc}
use agent_baker.Text.{Text, text, is_empty, equal_fold}
use agent_baker.Text.Number.{format_int}
use agent_baker.Datamodel.Profiles.{HostedMasterProfile}
use agent_baker.Datamodel.Cluster.{AgentPoolProfile, Properties}
use agent_baker.Cluster.{k8s_orchestrator_name}
use agent_baker.Methods.Pool.{is_windows, is_virtual_machine_scale_sets, is_availability_sets}
use agent_baker.Methods.Cluster.{pools}

-- `s[:n]`
unfoldable pub slice_to : ℕ → Text → Option Text
slice_to n s = if leb n (length s) then some (take n s) else none

-- `%0*d` for a number whose text has no sign or is not shorter than the width.
unfoldable pub zero_padded : ℕ → ℤ → Text
zero_padded width i = replicate (width - length (format_int i)) b'0' ++ format_int i

abbrev pub first_name : List (Option AgentPoolProfile) → Option Text
first_name [] = some []
first_name (none ∷ profiles) = none
first_name (some a ∷ profiles) = some a.name

abbrev pub hashed_name : Option HostedMasterProfile → List (Option AgentPoolProfile) → Option Text
hashed_name none profiles = first_name profiles
hashed_name (some hosted) profiles = some hosted.dns_prefix

-- The name that `GetClusterID` hashes; the first pool is followed where there is no hosted master.
unfoldable pub seed_name : Properties → Option Text
seed_name p = hashed_name p.hosted_master_profile (pools p.agent_pool_profiles)

-- `p.ClusterID = id`, and the result
abbrev pub with_cluster_id : Properties → Text → Option (Text × Properties)
with_cluster_id p id = some (id, record p { cluster_id = id })

-- `Properties.GetClusterID`. `random_uint32` is the first number of the generator of math/rand
-- whose seed is the FNV hash of a name.
unfoldable pub get_cluster_id : (Text → ℕ) → Properties → Option (Text × Properties)
get_cluster_id random_uint32 p =
    if is_empty p.cluster_id
    then (do
      name ← seed_name p
      id ← slice_to 8 (zero_padded 8 (pos (random_uint32 name)))
      with_cluster_id p id)
    else some (p.cluster_id, p)

-- `Properties.GetResourcePrefix`
unfoldable pub get_resource_prefix : (Text → ℕ) → Properties → Option (Text × Properties)
get_resource_prefix random_uint32 p = do
  name ← k8s_orchestrator_name p
  (id, p') ← get_cluster_id random_uint32 p
  some (name ++ (text "-agentpool-" ++ (id ++ text "-")), p')

abbrev suffixed : Text → Text × Properties → Option (Text × Properties)
suffixed suffix (prefix, p) = some (prefix ++ suffix, p)

-- `Properties.GetNSGName`
unfoldable pub get_nsg_name : (Text → ℕ) → Properties → Option (Text × Properties)
get_nsg_name random_uint32 p = get_resource_prefix random_uint32 p >>= suffixed (text "nsg")

-- `Properties.GetRouteTableName`
unfoldable pub get_route_table_name : (Text → ℕ) → Properties → Option (Text × Properties)
get_route_table_name random_uint32 p =
    get_resource_prefix random_uint32 p >>= suffixed (text "routetable")

abbrev prefixed : Text → Text × Properties → Option (Text × Properties)
prefixed prefix (suffix, p) = some (prefix ++ suffix, p)

abbrev availability_set_name :
    (Text → ℕ) → Properties → List (Option AgentPoolProfile) → Option (Text × Properties)
availability_set_name random_uint32 p [] = some ([], p)
availability_set_name random_uint32 p (none ∷ profiles) = none
availability_set_name random_uint32 p (some a ∷ profiles) =
    if is_availability_sets a
    then get_cluster_id random_uint32 p >>= prefixed (a.name ++ text "-availabilitySet-")
    else some ([], p)

-- `Properties.GetPrimaryAvailabilitySetName`
unfoldable pub get_primary_availability_set_name :
    (Text → ℕ) → Properties → Option (Text × Properties)
get_primary_availability_set_name random_uint32 p =
    availability_set_name random_uint32 p (pools p.agent_pool_profiles)

abbrev windows_prefix : Text → AgentPoolProfile → ℤ → Text → Option Text
windows_prefix name_suffix a index name =
    if equal_fold a.windows_name_version (text "v2")
    then some (name ++ a.name)
    else slice_to 4 name_suffix >>= λ short. some (short ++ (name ++ zero_padded 2 index))

abbrev linux_prefix : Text → AgentPoolProfile → Text → Text
linux_prefix name_suffix a name =
    (name ++ (text "-" ++ (a.name ++ (text "-" ++ (name_suffix ++ text "-")))))
    ++ (if is_virtual_machine_scale_sets a then text "vmss" else [])

-- The prefix for a pool that `index` does not exclude, from the orchestrator's name.
unfoldable pub vm_prefix : Text → AgentPoolProfile → ℤ → Text → Option Text
vm_prefix name_suffix a index name =
    if is_windows a
    then windows_prefix name_suffix a index name
    else some (linux_prefix name_suffix a name)

abbrev pub is_minus_one : ℤ → Bool
is_minus_one (negsuc zero) = true
is_minus_one (negsuc (suc n)) = false
is_minus_one (pos n) = false

abbrev pub vm_prefix_from : AgentPoolProfile → ℤ → Text × Properties → Option (Text × Properties)
vm_prefix_from a index (id, p) =
    if is_minus_one index
    then some ([], p)
    else (do name ← k8s_orchestrator_name p; prefix ← vm_prefix id a index name; some (prefix, p))

-- `Properties.GetAgentVMPrefix`
unfoldable pub get_agent_vm_prefix :
    (Text → ℕ) → Properties → AgentPoolProfile → ℤ → Option (Text × Properties)
get_agent_vm_prefix random_uint32 p a index =
    get_cluster_id random_uint32 p >>= vm_prefix_from a index

abbrev scale_set_name :
    (Text → ℕ) → Properties → List (Option AgentPoolProfile) → Option (Text × Properties)
scale_set_name random_uint32 p [] = some ([], p)
scale_set_name random_uint32 p (none ∷ profiles) = none
scale_set_name random_uint32 p (some a ∷ profiles) =
    if is_virtual_machine_scale_sets a
    then get_agent_vm_prefix random_uint32 p a (pos 0)
    else some ([], p)

-- `Properties.GetPrimaryScaleSetName`
unfoldable pub get_primary_scale_set_name : (Text → ℕ) → Properties → Option (Text × Properties)
get_primary_scale_set_name random_uint32 p =
    scale_set_name random_uint32 p (pools p.agent_pool_profiles)
