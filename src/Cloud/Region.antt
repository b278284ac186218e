-- ===== src/Cloud/Region.antt =====
-- pkg/agent/datamodel/sig_config.go: GetCloudTargetEnv, which knows two clouds more.
use agent_baker.Prelude.{◌||◌, if◌then◌else◌}
use agent_baker.Text.{Text, text, beq, has_prefix, to_lower}
use agent_baker.Cloud.{
  compact, azure_public_cloud, azure_china_cloud, azure_german_cloud, azure_us_government_cloud,
  us_nat_cloud, us_sec_cloud,
}

-- `GetCloudTargetEnv`
unfoldable pub get_cloud_target_env : Text → Text
get_cloud_target_env location =
    let loc = compact location in
    if beq loc (text "chinaeast")
      || beq loc (text "chinanorth")
      || beq loc (text "chinaeast2")
      || beq loc (text "chinanorth2")
    then azure_china_cloud
    else if beq loc (text "germanynortheast") || beq loc (text "germanycentral")
    then azure_german_cloud
    else if has_prefix loc (text "usgov") || has_prefix loc (text "usdod")
    then azure_us_government_cloud
    else if has_prefix (to_lower loc) (text "usnat")
    then us_nat_cloud
    else if has_prefix (to_lower loc) (text "ussec")
    then us_sec_cloud
    else azure_public_cloud
