-- ===== src/Datamodel/Gallery.antt =====
-- pkg/agent/datamodel/sig_config.go: image galleries and their images, each with its zero value.
use agent_baker.Prelude.{[], Option, none}
use agent_baker.Text.{Text}
use agent_baker.GoMap.{GoMap}

-- `SIGGalleryConfig`
pub record SigGalleryConfig : Type 0 where
  pub gallery_name : Text
  pub resource_group : Text

abbrev pub zero_sig_gallery_config : SigGalleryConfig
zero_sig_gallery_config = record { gallery_name = []; resource_group = [] }

-- `SIGConfig`
pub record SigConfig : Type 0 where
  pub tenant_id : Text
  pub subscription_id : Text
  pub galleries : Option (GoMap SigGalleryConfig)

abbrev pub zero_sig_config : SigConfig
zero_sig_config = record { tenant_id = []; subscription_id = []; galleries = none }

-- `SigImageConfigTemplate`
pub record SigImageConfigTemplate : Type 0 where
  pub resource_group : Text
  pub gallery : Text
  pub definition : Text
  pub version : Text

abbrev pub zero_sig_image_config_template : SigImageConfigTemplate
zero_sig_image_config_template = record {
  resource_group = [];
  gallery = [];
  definition = [];
  version = [];
}

-- `SigImageConfig`
pub record SigImageConfig : Type 0 where
  pub sig_image_config_template : SigImageConfigTemplate
  pub subscription_id : Text

abbrev pub zero_sig_image_config : SigImageConfig
zero_sig_image_config = record {
  sig_image_config_template = zero_sig_image_config_template;
  subscription_id = [];
}

-- `SIGAzureEnvironmentSpecConfig`
pub record SigAzureEnvironmentSpecConfig : Type 0 where
  pub cloud_name : Text
  pub sig_tenant_id : Text
  pub subscription_id : Text
  pub sig_ubuntu_image_config : GoMap SigImageConfig
  pub sig_cbl_mariner_image_config : GoMap SigImageConfig
  pub sig_windows_image_config : GoMap SigImageConfig

abbrev pub zero_sig_azure_environment_spec_config : SigAzureEnvironmentSpecConfig
zero_sig_azure_environment_spec_config = record {
  cloud_name = [];
  sig_tenant_id = [];
  subscription_id = [];
  sig_ubuntu_image_config = [];
  sig_cbl_mariner_image_config = [];
  sig_windows_image_config = [];
}
