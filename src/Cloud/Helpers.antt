-- ===== src/Cloud/Helpers.antt =====
-- pkg/aks-engine/helpers/helpers.go: GetCloudTargetEnv and GetTargetEnv.
use agent_baker.Prelude.{not, ◌&&◌, ◌||◌, if◌then◌else◌}
use agent_baker.Text.{Text, text, beq, is_empty, has_prefix, equal_fold}
use agent_baker.Cloud.{compact}

-- `GetCloudTargetEnv`
unfoldable pub get_cloud_target_env : Text → Text
get_cloud_target_env location =
    let loc = compact location in
    if beq loc (text "chinaeast")
      || beq loc (text "chinanorth")
      || beq loc (text "chinaeast2")
      || beq loc (text "chinanorth2")
    then text "AzureChinaCloud"
    else if beq loc (text "germanynortheast") || beq loc (text "germanycentral")
    then text "AzureGermanCloud"
    else if has_prefix loc (text "usgov") || has_prefix loc (text "usdod")
    then text "AzureUSGovernmentCloud"
    else text "AzurePublicCloud"

-- `GetTargetEnv`
unfoldable pub get_target_env : Text → Text → Text
get_target_env location custom_cloud_name =
    if not (is_empty custom_cloud_name) && equal_fold custom_cloud_name (text "AzureStackCloud")
    then text "AzureStackCloud"
    else if not (is_empty custom_cloud_name) && equal_fold custom_cloud_name (text "akscustom")
    then text "akscustom"
    else get_cloud_target_env location
