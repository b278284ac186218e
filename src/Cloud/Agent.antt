-- ===== src/Cloud/Agent.antt =====
-- pkg/agent/utils.go: GetCloudTargetEnv.
use agent_baker.Prelude.{◌||◌, if◌then◌else◌}
use agent_baker.Text.{Text, text, beq, has_prefix}
use agent_baker.Cloud.{compact}

-- `GetCloudTargetEnv`
unfoldable pub get_cloud_target_env : Text → Text
get_cloud_target_env location =
    let loc = compact location in
    if beq loc (text "chinaeast")
      || beq loc (text "chinanorth")
      || beq loc (text "chinaeast2")
      || beq loc (text "chinanorth2")
    then text "AzureChinaCloud"
    else if beq loc (text "germanynortheast") || beq loc (text "germanycentral")
    then text "AzureGermanCloud"
    else if has_prefix loc (text "usgov") || has_prefix loc (text "usdod")
    then text "AzureUSGovernmentCloud"
    else text "AzurePublicCloud"
