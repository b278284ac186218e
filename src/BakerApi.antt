-- ===== src/BakerApi.antt =====
-- pkg/agent/bakerapi.go: the two operations of the `AgentBaker` interface. The texts that the
-- generator renders (pkg/agent/baker.go and the generated templates) are parameters.
pub mod Images
use agent_baker.Prelude.{◌&&◌, not, List, [], ◌∷◌, Option, none, some, is_some, if◌then◌else◌}
use agent_baker.Prelude.Result.{Result, ok, err}
use agent_baker.Prelude.Panic.{◌>>=◌}
use agent_baker.Text.{Text}
use agent_baker.GoMap.{GoMap, lookup}
use agent_baker.Datamodel.Distro.{Distro}
use agent_baker.Datamodel.Cloud.{AzureOsImageConfig}
use agent_baker.Datamodel.Gallery.{SigConfig, SigImageConfig, SigAzureEnvironmentSpecConfig}
use agent_baker.Datamodel.Bootstrapping.{NodeBootstrappingConfiguration, NodeBootstrapping}
use agent_baker.OsImage.{azure_cloud_to_os_image_map}
use agent_baker.Sig.{SigError, get_sig_azure_cloud_spec_config, find_sig_image_config}

pub data BakerError : Type 0 where
  no_settings_for_cloud : Text → BakerError
  sig_error : SigError → BakerError
  no_image : Distro → BakerError
  no_sig_image : Distro → Text → BakerError

-- The end of `GetNodeBootstrapping`, once the image configuration is known.
unfoldable pub with_images :
    Text
    → Text
    → Option AzureOsImageConfig
    → Distro
    → Result SigError SigAzureEnvironmentSpecConfig
    → Result BakerError NodeBootstrapping
with_images custom_data cse os_image_config distro (err e) = err (sig_error e)
with_images custom_data cse os_image_config distro (ok sig_spec) =
    let sig_image_config = find_sig_image_config sig_spec distro in
    if not (is_some sig_image_config) && not (is_some os_image_config)
    then err (no_image distro)
    else ok (record {
      custom_data = custom_data;
      cse = cse;
      os_image_config = os_image_config;
      sig_image_config = sig_image_config;
    })

-- The search for the images in `GetNodeBootstrapping`, in the images of the cloud.
unfoldable pub choose_in :
    Text
    → Text
    → Text
    → Distro
    → SigConfig
    → Text
    → Option (GoMap AzureOsImageConfig)
    → Result BakerError NodeBootstrapping
choose_in custom_data cse cloud_name distro sig_config location none =
    err (no_settings_for_cloud cloud_name)
choose_in custom_data cse cloud_name distro sig_config location (some images) =
    with_images custom_data cse (lookup images distro) distro
      (get_sig_azure_cloud_spec_config sig_config location)

unfoldable pub choose_images :
    Text → Text → Text → Distro → SigConfig → Text → Result BakerError NodeBootstrapping
choose_images custom_data cse cloud_name distro sig_config location =
    choose_in custom_data cse cloud_name distro sig_config location
      (lookup azure_cloud_to_os_image_map cloud_name)

-- `GetNodeBootstrapping`: `none` is a panic. `payload` is `GetNodeBootstrappingPayload`, which also
-- changes the configuration it is given a pointer to; `cmd` is `GetNodeBootstrappingCmd`.
unfoldable pub get_node_bootstrapping :
    (NodeBootstrappingConfiguration → Option (Text × NodeBootstrappingConfiguration))
    → (NodeBootstrappingConfiguration → Option Text)
    → NodeBootstrappingConfiguration
    → Option (Result BakerError NodeBootstrapping)
get_node_bootstrapping payload cmd config = do
  rendered ← payload config
  cse ← cmd rendered.1
  cloud_spec_config ← rendered.1.cloud_spec_config
  profile ← rendered.1.agent_pool_profile
  container_service ← rendered.1.container_service
  some (
      choose_images rendered.0 cse cloud_spec_config.cloud_name profile.distro rendered.1.sig_config
        container_service.location)

-- The end of `GetLatestSigImageConfig`.
unfoldable pub or_no_sig_image :
    Text → Distro → Option SigImageConfig → Result BakerError SigImageConfig
or_no_sig_image region distro none = err (no_sig_image distro region)
or_no_sig_image region distro (some image) = ok image

-- The lookup of `GetLatestSigImageConfig`, once the galleries are read.
unfoldable pub latest_in :
    Text → Distro → Result SigError SigAzureEnvironmentSpecConfig → Result BakerError SigImageConfig
latest_in region distro (err e) = err (sig_error e)
latest_in region distro (ok sig_spec) =
    or_no_sig_image region distro (find_sig_image_config sig_spec distro)

-- `GetLatestSigImageConfig`
unfoldable pub get_latest_sig_image_config :
    SigConfig → Text → Distro → Result BakerError SigImageConfig
get_latest_sig_image_config sig_config region distro =
    latest_in region distro (get_sig_azure_cloud_spec_config sig_config region)
