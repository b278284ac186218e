-- ===== src/Tests/Images.antt =====
-- The images, at a configuration of three galleries.
use agent_baker.Prelude.{◌&&◌, ◌||◌, [], ◌∷◌, ◌≡◌, refl, Option, some, is_some, ◌↔◌}
use agent_baker.Prelude.Result.{Result, ok}
use agent_baker.Text.{Text, text, beq, equal_fold, to_lower}
use agent_baker.GoMap.{lookup}
use agent_baker.Datamodel.Distro.{
  is_vhd_distro, aks_windows2019, aks_windows2019_containerd, aks_ubuntu1804, aks_cbl_mariner_v1,
}
use agent_baker.Datamodel.Cloud.{AzureEnvironmentSpecConfig, zero_azure_environment_spec_config}
use agent_baker.Datamodel.Gallery.{
  SigConfig, SigGalleryConfig, SigImageConfig, SigAzureEnvironmentSpecConfig,
}
use agent_baker.Datamodel.Cluster.{
  AgentPoolProfile, ContainerService, zero_agent_pool_profile, zero_container_service,
}
use agent_baker.Datamodel.Bootstrapping.{
  NodeBootstrapping, NodeBootstrappingConfiguration, zero_node_bootstrapping_configuration,
}
use agent_baker.OsImage.{azure_cloud_to_os_image_map}
use agent_baker.Cloud.{azure_public_cloud}
use agent_baker.Sig.{
  get_sig_azure_cloud_spec_config, build_spec, gallery_of, with_acs_sig_config, with_options,
  move_to, find_sig_image_config, get_sig_ubuntu_image_config_map_with_opts,
}
use agent_baker.Sig.Templates.{sig_ubuntu1804_image_config_template}
use agent_baker.Sig.Configured.{Configured, spec_of, get_sig_azure_cloud_spec_config_iff}
use agent_baker.Sig.Located.{IsGallery, IsIn, find_sig_image_config-IsIn}
use agent_baker.Sig.Offered.{find_sig_image_config_offers}
use agent_baker.BakerApi.{BakerError, get_node_bootstrapping, get_latest_sig_image_config}
use agent_baker.BakerApi.Images.{
  is_ok, is_offered, lookup_in, is_ok-get_latest_sig_image_config, is_ok-get_node_bootstrapping,
}

abbrev gallery : SigGalleryConfig
gallery = record { gallery_name = text "aks"; resource_group = text "images" }

abbrev sig_config : SigConfig
sig_config = record {
  tenant_id = text "tenant";
  subscription_id = text "subscription";
  galleries = some (
      (text "AKSUbuntu", gallery)
      ∷ (text "AKSCBLMariner", gallery)
      ∷ (text "AKSWindows", gallery)
      ∷ []);
}

abbrev spec : SigAzureEnvironmentSpecConfig
spec = spec_of sig_config (text "westus2") gallery gallery gallery

configured : get_sig_azure_cloud_spec_config sig_config (text "westus2") ≡ ok spec
unfolding get_sig_azure_cloud_spec_config build_spec gallery_of with_acs_sig_config equal_fold
    to_lower beq text lookup
configured = refl

get_sig_azure_cloud_spec_config_iff_example :
    (get_sig_azure_cloud_spec_config sig_config (text "westus2") ≡ ok spec)
    ↔ Configured sig_config (text "westus2") spec
get_sig_azure_cloud_spec_config_iff_example =
    get_sig_azure_cloud_spec_config_iff sig_config (text "westus2") spec

abbrev image : SigImageConfig
image = with_options sig_ubuntu1804_image_config_template (move_to sig_config gallery ∷ [])

found : find_sig_image_config spec aks_ubuntu1804 ≡ some image
unfolding find_sig_image_config get_sig_ubuntu_image_config_map_with_opts lookup beq text
found = refl

find_sig_image_config-IsIn_example :
    (g : SigGalleryConfig) × IsGallery sig_config g × IsIn sig_config g image
find_sig_image_config-IsIn_example =
    find_sig_image_config-IsIn sig_config (text "westus2") aks_ubuntu1804 configured found

find_sig_image_config_offers_example : is_some (find_sig_image_config spec aks_cbl_mariner_v1) ≡ (
    is_vhd_distro aks_cbl_mariner_v1
    || beq aks_cbl_mariner_v1 aks_windows2019
    || beq aks_cbl_mariner_v1 aks_windows2019_containerd)
find_sig_image_config_offers_example =
    find_sig_image_config_offers sig_config (text "westus2") aks_cbl_mariner_v1 configured

is_ok-get_latest_sig_image_config_example :
    is_ok (get_latest_sig_image_config sig_config (text "westus2") aks_windows2019) ≡ (
      is_ok (get_sig_azure_cloud_spec_config sig_config (text "westus2"))
      && is_offered aks_windows2019)
is_ok-get_latest_sig_image_config_example =
    is_ok-get_latest_sig_image_config sig_config (text "westus2") aks_windows2019

abbrev cloud : AzureEnvironmentSpecConfig
cloud = record zero_azure_environment_spec_config { cloud_name = azure_public_cloud }

abbrev profile : AgentPoolProfile
profile = record zero_agent_pool_profile { distro = aks_ubuntu1804 }

abbrev cluster : ContainerService
cluster = record zero_container_service { location = text "westus2" }

abbrev config : NodeBootstrappingConfiguration
config = record zero_node_bootstrapping_configuration {
  cloud_spec_config = some cloud;
  agent_pool_profile = some profile;
  container_service = some cluster;
  sig_config = sig_config;
}

abbrev payload : NodeBootstrappingConfiguration → Option (Text × NodeBootstrappingConfiguration)
payload c = some (text "custom data", c)

abbrev cmd : NodeBootstrappingConfiguration → Option Text
cmd c = some (text "command")

is_ok-get_node_bootstrapping_example :
    (r : Result BakerError NodeBootstrapping) × (get_node_bootstrapping payload cmd config ≡ some r)
    × (is_ok r ≡ (
        is_some (lookup azure_cloud_to_os_image_map azure_public_cloud)
        && (is_ok (get_sig_azure_cloud_spec_config sig_config (text "westus2"))
            && (is_offered aks_ubuntu1804
                || is_some (
                    lookup_in
                      (lookup azure_cloud_to_os_image_map azure_public_cloud)
                      aks_ubuntu1804)))))
is_ok-get_node_bootstrapping_example =
    is_ok-get_node_bootstrapping payload cmd config config (text "custom data") (text "command")
      refl refl refl refl refl
