-- ===== src/BakerApi/Images.antt =====
-- When the two operations find an image.
use agent_baker.Prelude.{
  Bool, true, false, ◌&&◌, ◌||◌, ◌≡◌, refl, Option, none, some, is_some, arith,
}
use agent_baker.Prelude.Result.{Result, ok, err}
use agent_baker.Text.{Text, beq}
use agent_baker.GoMap.{GoMap, lookup}
use agent_baker.Datamodel.Distro.{
  Distro, is_vhd_distro, aks_windows2019, aks_windows2019_containerd,
}
use agent_baker.Datamodel.Cloud.{AzureOsImageConfig}
use agent_baker.Datamodel.Gallery.{SigConfig, SigImageConfig, SigAzureEnvironmentSpecConfig}
use agent_baker.Datamodel.Cloud.{AzureEnvironmentSpecConfig}
use agent_baker.Datamodel.Cluster.{AgentPoolProfile, ContainerService}
use agent_baker.Datamodel.Bootstrapping.{NodeBootstrapping, NodeBootstrappingConfiguration}
use agent_baker.OsImage.{azure_cloud_to_os_image_map}
use agent_baker.Sig.{SigError, get_sig_azure_cloud_spec_config, find_sig_image_config}
use agent_baker.Sig.Offered.{find_sig_image_config_offers}
use agent_baker.BakerApi.{
  BakerError, with_images, choose_images, choose_in, or_no_sig_image, get_node_bootstrapping,
  latest_in, get_latest_sig_image_config,
}

-- There is a result, no error.
abbrev pub is_ok {ℓ κ} : {E : Type ℓ} {A : Type κ} → Result E A → Bool
is_ok (ok a) = true
is_ok (err e) = false

-- The distributions that a configuration of galleries offers.
abbrev pub is_offered : Distro → Bool
is_offered d = is_vhd_distro d || beq d aks_windows2019 || beq d aks_windows2019_containerd

is_ok-or_no_sig_image :
    (region : Text) (d : Distro) (i : Option SigImageConfig)
    → is_ok (or_no_sig_image region d i) ≡ is_some i
unfolding or_no_sig_image
is_ok-or_no_sig_image region d none = refl
is_ok-or_no_sig_image region d (some i) = refl

is_ok-latest_in :
    (region : Text) (d : Distro) (offers : Bool) (r : Result SigError SigAzureEnvironmentSpecConfig)
    → ((c : SigAzureEnvironmentSpecConfig)
        → r ≡ ok c
        → is_some (find_sig_image_config c d) ≡ offers)
    → is_ok (latest_in region d r) ≡ (is_ok r && offers)
unfolding latest_in
is_ok-latest_in region d offers (err e) h = refl
is_ok-latest_in region d offers (ok c) h =
    rw (is_ok-or_no_sig_image region d (find_sig_image_config c d)) (h c refl)

is_ok-with_images :
    (custom_data cse : Text) (os : Option AzureOsImageConfig) (d : Distro) (offers : Bool)
    (r : Result SigError SigAzureEnvironmentSpecConfig)
    → ((c : SigAzureEnvironmentSpecConfig)
        → r ≡ ok c
        → is_some (find_sig_image_config c d) ≡ offers)
    → is_ok (with_images custom_data cse os d r) ≡ (is_ok r && (offers || is_some os))
unfolding with_images
is_ok-with_images custom_data cse os d offers (err e) h = refl
is_ok-with_images custom_data cse os d offers (ok c) h = rw (h c refl) ground arith

-- `GetLatestSigImageConfig` returns an image exactly if the galleries of the configuration can be
-- read and the distribution is one built as a VHD or one of the two of Windows.
pub is_ok-get_latest_sig_image_config :
    (sig_config : SigConfig) (region : Text) (d : Distro)
    → is_ok (get_latest_sig_image_config sig_config region d)
      ≡ (is_ok (get_sig_azure_cloud_spec_config sig_config region) && is_offered d)
unfolding get_latest_sig_image_config
is_ok-get_latest_sig_image_config sig_config region d =
    is_ok-latest_in region d (is_offered d) (get_sig_azure_cloud_spec_config sig_config region)
      λ c e. find_sig_image_config_offers sig_config region d e

-- `m[k]` of a map that may be missing.
abbrev pub lookup_in {ℓ} : {V : Type ℓ} → Option (GoMap V) → Text → Option V
lookup_in none k = none
lookup_in (some m) k = lookup m k

is_ok-choose_in :
    (custom_data cse cloud : Text) (d : Distro) (sig_config : SigConfig) (location : Text)
    (images : Option (GoMap AzureOsImageConfig))
    → is_ok (choose_in custom_data cse cloud d sig_config location images) ≡ (
        is_some images
        && (is_ok (get_sig_azure_cloud_spec_config sig_config location)
            && (is_offered d || is_some (lookup_in images d))))
unfolding choose_in
is_ok-choose_in custom_data cse cloud d sig_config location none = refl
is_ok-choose_in custom_data cse cloud d sig_config location (some images) =
    is_ok-with_images custom_data cse (lookup images d) d (is_offered d)
      (get_sig_azure_cloud_spec_config sig_config location)
      λ c e. find_sig_image_config_offers sig_config location d e

-- `GetNodeBootstrapping`, once it has rendered its two texts and where the pointers to the cloud, the
-- agent pool and the cluster are not nil, does not panic, and it returns a result exactly if the cloud
-- is known, the galleries can be read, and the galleries or the images of the cloud have the
-- distribution.
pub is_ok-get_node_bootstrapping :
    (payload : NodeBootstrappingConfiguration → Option (Text × NodeBootstrappingConfiguration))
    (cmd : NodeBootstrappingConfiguration → Option Text)
    (config after : NodeBootstrappingConfiguration) (custom_data cse : Text)
    {cloud : AzureEnvironmentSpecConfig} {profile : AgentPoolProfile}
    {container_service : ContainerService}
    → payload config ≡ some (custom_data, after)
    → cmd after ≡ some cse
    → after.cloud_spec_config ≡ some cloud
    → after.agent_pool_profile ≡ some profile
    → after.container_service ≡ some container_service
    → (r : Result BakerError NodeBootstrapping) × (get_node_bootstrapping payload cmd config
        ≡ some r)
      × (is_ok r ≡ (
          is_some (lookup azure_cloud_to_os_image_map cloud.cloud_name)
          && (is_ok (get_sig_azure_cloud_spec_config after.sig_config container_service.location)
              && (is_offered profile.distro
                  || is_some (
                      lookup_in
                        (lookup azure_cloud_to_os_image_map cloud.cloud_name)
                        profile.distro)))))
unfolding get_node_bootstrapping choose_images
is_ok-get_node_bootstrapping payload cmd config after custom_data cse {cloud} {profile}
      {container_service} rendered command c p cs =
    (
      choose_images custom_data cse cloud.cloud_name profile.distro after.sig_config
          container_service.location,
      rw (rendered, command, c, p, cs) refl,
      is_ok-choose_in custom_data cse cloud.cloud_name profile.distro after.sig_config
          container_service.location (lookup azure_cloud_to_os_image_map cloud.cloud_name),
    )
