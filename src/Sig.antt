-- ===== src/Sig.antt =====
-- pkg/agent/datamodel/sig_config.go: the images that the galleries of a configuration offer.
pub mod Templates
pub mod Configured
pub mod Located
pub mod Offered
use agent_baker.Prelude.{◌||◌, List, [], ◌∷◌, Option, none, some, if◌then◌else◌}
use agent_baker.Prelude.Result.{Result, ok, err, ◌>>=◌}
use agent_baker.Text.{Text, text, equal_fold}
use agent_baker.GoMap.{GoMap, lookup}
use agent_baker.Datamodel.Gallery.{
  SigConfig, SigGalleryConfig, SigImageConfigTemplate, SigImageConfig,
  SigAzureEnvironmentSpecConfig,
}
use Templates.{
  azure_public_cloud_sig_tenant_id, azure_public_cloud_sig_subscription,
  sig_cbl_mariner_v1_image_config_template, sig_ubuntu1604_image_config_template,
  sig_ubuntu1804_gen2_image_config_template, sig_ubuntu1804_image_config_template,
  sig_ubuntu_containerd1804_gen2_image_config_template,
  sig_ubuntu_containerd1804_image_config_template,
  sig_ubuntu_fips_containerd1804_gen2_image_config_template,
  sig_ubuntu_fips_containerd1804_image_config_template,
  sig_ubuntu_fips_gpu_containerd1804_gen2_image_config_template,
  sig_ubuntu_fips_gpu_containerd1804_image_config_template,
  sig_ubuntu_gpu1804_gen2_image_config_template, sig_ubuntu_gpu1804_image_config_template,
  sig_ubuntu_gpu_containerd1804_gen2_image_config_template,
  sig_ubuntu_gpu_containerd1804_image_config_template,
  sig_windows2019_containerd_image_config_template, sig_windows2019_image_config_template,
}
use agent_baker.Datamodel.Distro.{
  Distro, aks_cbl_mariner_v1, aks_ubuntu1604, aks_ubuntu1804, aks_ubuntu1804_gen2,
  aks_ubuntu_containerd1804, aks_ubuntu_containerd1804_gen2, aks_ubuntu_fips_containerd1804,
  aks_ubuntu_fips_containerd1804_gen2, aks_ubuntu_fips_gpu_containerd1804,
  aks_ubuntu_fips_gpu_containerd1804_gen2, aks_ubuntu_gpu1804, aks_ubuntu_gpu1804_gen2,
  aks_ubuntu_gpu_containerd1804, aks_ubuntu_gpu_containerd1804_gen2, aks_windows2019,
  aks_windows2019_containerd,
}
use agent_baker.Cloud.{azure_public_cloud}
use agent_baker.Cloud.Region

pub data SigError : Type 0 where
  missing_values : SigError
  gallery_not_found : Text → SigError

-- `SigImageConfigOpt`: a function that changes the image it is given a pointer to.
abbrev pub SigImageConfigOpt : Type 0
SigImageConfigOpt = SigImageConfig → SigImageConfig

apply_options : List SigImageConfigOpt → SigImageConfig → SigImageConfig
apply_options [] config = config
apply_options (opt ∷ options) config = apply_options options (opt config)

-- `WithOptions`
unfoldable pub with_options : SigImageConfigTemplate → List SigImageConfigOpt → SigImageConfig
unfolding apply_options
with_options template options =
    apply_options options (record { sig_image_config_template = template; subscription_id = [] })

-- `getSigUbuntuImageConfigMapWithOpts`
unfoldable pub get_sig_ubuntu_image_config_map_with_opts :
    List SigImageConfigOpt → GoMap SigImageConfig
get_sig_ubuntu_image_config_map_with_opts opts =
    (aks_ubuntu1604, with_options sig_ubuntu1604_image_config_template opts)
    ∷ (aks_ubuntu1804, with_options sig_ubuntu1804_image_config_template opts)
    ∷ (aks_ubuntu1804_gen2, with_options sig_ubuntu1804_gen2_image_config_template opts)
    ∷ (aks_ubuntu_gpu1804, with_options sig_ubuntu_gpu1804_image_config_template opts)
    ∷ (aks_ubuntu_gpu1804_gen2, with_options sig_ubuntu_gpu1804_gen2_image_config_template opts)
    ∷ (aks_ubuntu_containerd1804, with_options sig_ubuntu_containerd1804_image_config_template opts)
    ∷ (
      aks_ubuntu_containerd1804_gen2,
      with_options sig_ubuntu_containerd1804_gen2_image_config_template opts,
    )
    ∷ (
      aks_ubuntu_gpu_containerd1804,
      with_options sig_ubuntu_gpu_containerd1804_image_config_template opts,
    )
    ∷ (
      aks_ubuntu_gpu_containerd1804_gen2,
      with_options sig_ubuntu_gpu_containerd1804_gen2_image_config_template opts,
    )
    ∷ (
      aks_ubuntu_fips_containerd1804,
      with_options sig_ubuntu_fips_containerd1804_image_config_template opts,
    )
    ∷ (
      aks_ubuntu_fips_containerd1804_gen2,
      with_options sig_ubuntu_fips_containerd1804_gen2_image_config_template opts,
    )
    ∷ (
      aks_ubuntu_fips_gpu_containerd1804,
      with_options sig_ubuntu_fips_gpu_containerd1804_image_config_template opts,
    )
    ∷ (
      aks_ubuntu_fips_gpu_containerd1804_gen2,
      with_options sig_ubuntu_fips_gpu_containerd1804_gen2_image_config_template opts,
    )
    ∷ []

-- `getSigCBLMarinerImageConfigMapWithOpts`
unfoldable pub get_sig_cbl_mariner_image_config_map_with_opts :
    List SigImageConfigOpt → GoMap SigImageConfig
get_sig_cbl_mariner_image_config_map_with_opts opts =
    (aks_cbl_mariner_v1, with_options sig_cbl_mariner_v1_image_config_template opts) ∷ []

-- `getSigWindowsImageConfigMapWithOpts`
unfoldable pub get_sig_windows_image_config_map_with_opts :
    List SigImageConfigOpt → GoMap SigImageConfig
get_sig_windows_image_config_map_with_opts opts =
    (aks_windows2019, with_options sig_windows2019_image_config_template opts)
    ∷ (
      aks_windows2019_containerd,
      with_options sig_windows2019_containerd_image_config_template opts,
    )
    ∷ []

-- `acsSigConfig.Galleries[osSKU]`; a nil map has no key.
unfoldable pub gallery_of : SigConfig → Text → Option SigGalleryConfig
gallery_of acs_sig_config os_sku = elim acs_sig_config.galleries [
  | none ↦ none
  | some galleries ↦ lookup galleries os_sku
]

-- The closure that `withACSSIGConfig` returns.
unfoldable pub move_to : SigConfig → SigGalleryConfig → SigImageConfigOpt
move_to acs_sig_config gallery c = record c {
  sig_image_config_template = record (c.sig_image_config_template) {
    gallery = gallery.gallery_name;
    resource_group = gallery.resource_group;
  };
  subscription_id = acs_sig_config.subscription_id;
}

-- `withACSSIGConfig`: the option that puts an image into the gallery configured for `os_sku`.
unfoldable pub with_acs_sig_config : SigConfig → Text → Result SigError SigImageConfigOpt
unfolding move_to
with_acs_sig_config acs_sig_config os_sku = elim (gallery_of acs_sig_config os_sku) [
  | none ↦ err (gallery_not_found os_sku)
  | some gallery ↦ ok (move_to acs_sig_config gallery)
]

-- `withSubscription`
unfoldable pub with_subscription : Text → SigImageConfigOpt
with_subscription subscription_id c = record c { subscription_id = subscription_id }

-- The end of `GetSIGAzureCloudSpecConfig`: the galleries are looked up in the order Ubuntu,
-- CBLMariner, Windows.
unfoldable pub build_spec : SigConfig → Text → Result SigError SigAzureEnvironmentSpecConfig
build_spec sig_config region = do
  from_acs_ubuntu ← with_acs_sig_config sig_config (text "AKSUbuntu")
  from_acs_cbl_mariner ← with_acs_sig_config sig_config (text "AKSCBLMariner")
  from_acs_windows ← with_acs_sig_config sig_config (text "AKSWindows")
  ok (record {
    cloud_name = Region.get_cloud_target_env region;
    sig_tenant_id = sig_config.tenant_id;
    subscription_id = sig_config.subscription_id;
    sig_ubuntu_image_config = get_sig_ubuntu_image_config_map_with_opts (from_acs_ubuntu ∷ []);
    sig_cbl_mariner_image_config =
        get_sig_cbl_mariner_image_config_map_with_opts (from_acs_cbl_mariner ∷ []);
    sig_windows_image_config = get_sig_windows_image_config_map_with_opts (from_acs_windows ∷ []);
  })

-- `GetSIGAzureCloudSpecConfig`
unfoldable pub get_sig_azure_cloud_spec_config :
    SigConfig → Text → Result SigError SigAzureEnvironmentSpecConfig
get_sig_azure_cloud_spec_config sig_config region = elim sig_config.galleries [
  | none ↦ err missing_values
  | some galleries ↦
      if equal_fold sig_config.subscription_id [] || equal_fold sig_config.tenant_id []
      then err missing_values
      else build_spec sig_config region
]

-- `GetAzurePublicSIGConfigForTest`
unfoldable pub get_azure_public_sig_config_for_test : SigAzureEnvironmentSpecConfig
get_azure_public_sig_config_for_test = record {
  cloud_name = azure_public_cloud;
  sig_tenant_id = azure_public_cloud_sig_tenant_id;
  subscription_id = azure_public_cloud_sig_subscription;
  sig_ubuntu_image_config =
      get_sig_ubuntu_image_config_map_with_opts
        (with_subscription azure_public_cloud_sig_subscription ∷ []);
  sig_cbl_mariner_image_config =
      get_sig_cbl_mariner_image_config_map_with_opts
        (with_subscription azure_public_cloud_sig_subscription ∷ []);
  sig_windows_image_config =
      get_sig_windows_image_config_map_with_opts
        (with_subscription azure_public_cloud_sig_subscription ∷ []);
}

-- `findSIGImageConfig` of pkg/agent/bakerapi.go: the first map that has the distribution.
unfoldable pub find_sig_image_config :
    SigAzureEnvironmentSpecConfig → Distro → Option SigImageConfig
find_sig_image_config sig_config distro = elim (lookup sig_config.sig_ubuntu_image_config distro) [
  | some image ↦ some image
  | none ↦ elim (lookup sig_config.sig_cbl_mariner_image_config distro) [
    | some image ↦ some image
    | none ↦ lookup sig_config.sig_windows_image_config distro
  ]
]
