-- ===== src/Methods/Pool.antt =====
-- pkg/agent/datamodel/types.go: the methods of `AgentPoolProfile`; helper.go: the helpers they call.
pub mod Order
use agent_baker.Prelude.{Bool, true, false, not, ◌||◌, List, [], ◌∷◌, ◌++◌, map, if◌then◌else◌}
use agent_baker.Prelude.Result.{Result, err, ok}
use agent_baker.Text.{
  Text, text, beq, is_empty, equal_fold, split, contains, to_lower, sort_strings, concat,
}
use agent_baker.GoMap.{GoMap, keys, get_or}
use agent_baker.Datamodel.Distro.{is_vhd_distro}
use agent_baker.Datamodel.Cluster.{AgentPoolProfile}

-- `AgentPoolProfile.IsVHDDistro`
unfoldable pub pool_is_vhd_distro : AgentPoolProfile → Bool
pool_is_vhd_distro a = is_vhd_distro a.distro

-- `AgentPoolProfile.IsWindows`
unfoldable pub is_windows : AgentPoolProfile → Bool
is_windows a = equal_fold a.os_type (text "Windows")

-- `AgentPoolProfile.IsVirtualMachineScaleSets`
unfoldable pub is_virtual_machine_scale_sets : AgentPoolProfile → Bool
is_virtual_machine_scale_sets a = equal_fold a.availability_profile (text "VirtualMachineScaleSets")

-- `AgentPoolProfile.IsAvailabilitySets`
unfoldable pub is_availability_sets : AgentPoolProfile → Bool
is_availability_sets a = equal_fold a.availability_profile (text "AvailabilitySet")

-- The error of `GetStorageAccountType`, with the size that it prints.
pub data SizeNameError : Type 0 where
  invalid_size_name : Text → SizeNameError

abbrev storage_tier : Text → List Text → Result SizeNameError Text
storage_tier size_name [] = err (invalid_size_name size_name)
storage_tier size_name (family ∷ []) = err (invalid_size_name size_name)
storage_tier size_name (family ∷ capability ∷ rest) =
    if contains (to_lower capability) (text "s")
    then ok (text "Premium_LRS")
    else ok (text "Standard_LRS")

-- `GetStorageAccountType` of pkg/agent/datamodel/helper.go
unfoldable pub get_storage_account_type : Text → Result SizeNameError Text
get_storage_account_type size_name = storage_tier size_name (split size_name b'_')

-- `v, _ := f()`: the empty text that an error comes with.
abbrev pub or_empty {ℓ} : {E : Type ℓ} → Result E Text → Text
or_empty (err e) = []
or_empty (ok v) = v

-- `fmt.Sprintf(",%s=%s", key, a.CustomNodeLabels[key])`
unfoldable pub format_label : GoMap Text → Text → Text
format_label labels key = b',' ∷ (key ++ b'=' ∷ get_or labels key [])

-- The part of `GetKubernetesLabels` above the labels of the customer.
unfoldable pub fixed_labels : AgentPoolProfile → Text → Bool → Bool → Bool → Text → Bool → Text
fixed_labels a rg deprecated nvidia_enabled fips_enabled os_sku control_plane =
    (if control_plane
      then text "kubernetes.azure.com/role=master"
      else text "kubernetes.azure.com/role=agent")
    ++ ((if deprecated
          then text ",node-role.kubernetes.io/agent=" ++ text ",kubernetes.io/role=agent"
          else [])
        ++ ((text ",agentpool=" ++ a.name)
            ++ ((if equal_fold a.storage_profile (text "ManagedDisks")
                  then text ",storageprofile=managed,storagetier="
                    ++ or_empty (get_storage_account_type a.vm_size)
                  else [])
                ++ ((if nvidia_enabled then text ",accelerator=nvidia" else [])
                    ++ ((if fips_enabled
                          then text ",kubernetes.azure.com/fips_enabled=true"
                          else [])
                        ++ ((if not (is_empty os_sku)
                              then text ",kubernetes.azure.com/os-sku=" ++ os_sku
                              else [])
                            ++ (text ",kubernetes.azure.com/cluster=" ++ rg)))))))

-- `AgentPoolProfile.GetKubernetesLabels`; `keys` is the order of `range`.
unfoldable pub get_kubernetes_labels :
    AgentPoolProfile → Text → Bool → Bool → Bool → Text → Bool → Text
get_kubernetes_labels a rg deprecated nvidia_enabled fips_enabled os_sku control_plane =
    fixed_labels a rg deprecated nvidia_enabled fips_enabled os_sku control_plane
    ++ concat (map (format_label a.custom_node_labels) (sort_strings (keys a.custom_node_labels)))

-- `IsSgxEnabledSKU` of pkg/agent/datamodel/helper.go
unfoldable pub is_sgx_enabled_sku : Text → Bool
is_sgx_enabled_sku vm_size =
    beq vm_size (text "Standard_DC2s") || beq vm_size (text "Standard_DC4s")

-- `IsMIGNode` of pkg/agent/datamodel/helper.go
unfoldable pub is_mig_node : Text → Bool
is_mig_node gpu_instance_profile = not (is_empty gpu_instance_profile)
