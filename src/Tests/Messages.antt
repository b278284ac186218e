-- ===== src/Tests/Messages.antt =====
-- Labels, messages of the extension, and regions.
use agent_baker.Prelude.{All, ◌<◌, [], ◌++◌, ◌≡◌, refl, arith, Option, some, if◌then◌else◌, length}
use agent_baker.Text.{Text, text, has_prefix, has_suffix, beq}
use agent_baker.Datamodel.Status.{CseStatus, zero_cse_status}
use agent_baker.Label.{ends_badly, normalize_resource_group_name_for_label}
use agent_baker.Label.Value.{
  IsGroupByte, begins_well, is_label_value, is_label_value-normalize_resource_group_name_for_label,
}
use agent_baker.Label.Form.{IsNormal, normalize_resource_group_name_for_label-kept}
use agent_baker.CseMessage.{with_exit_code, parse_cse_message}
use agent_baker.CseMessage.Framed.{message_of, NoEarlier, parse_cse_message-framed}
use agent_baker.Cloud.{us_nat_cloud, us_sec_cloud, compact}
use agent_baker.Cloud.Agent
use agent_baker.Cloud.Helpers
use agent_baker.Cloud.Region
use agent_baker.Cloud.Agreement.{region-agent}

group_bytes : All IsGroupByte (text "MC_(group)_")
unfolding text
group_bytes = ground arith

is_label_value-normalize_resource_group_name_for_label_example :
    is_label_value (normalize_resource_group_name_for_label (text "MC_(group)_"))
    ≡ begins_well (text "MC_(group)_")
is_label_value-normalize_resource_group_name_for_label_example =
    is_label_value-normalize_resource_group_name_for_label (text "MC_(group)_") group_bytes

group-IsNormal : IsNormal (text "MC_group")
unfolding text ends_badly has_suffix beq
group-IsNormal = record { short = ground arith; plain = ground arith; end = refl }

normalize_resource_group_name_for_label-kept_example :
    normalize_resource_group_name_for_label (text "MC_group") ≡ text "MC_group"
normalize_resource_group_name_for_label-kept_example =
    normalize_resource_group_name_for_label-kept (text "MC_group") group-IsNormal

-- A decoder that takes the text for the exit code.
abbrev decode : Text → Option CseStatus
decode raw = some (record zero_cse_status { exit_code = raw })

abbrev begin : Text
begin = text "vmss000000: ["

abbrev body : Text
body = text "0"

no_stdout : NoEarlier (text "[stdout]") (body ++ (text "[stderr]" ++ [])) begin
unfolding text has_prefix
no_stdout = ground arith

no_stderr : NoEarlier (text "[stderr]") [] (begin ++ (text "[stdout]" ++ body))
unfolding text has_prefix
no_stderr = ground arith

some_body : 0 < length body
unfolding text
some_body = omega arith

parse_cse_message-framed_example :
    parse_cse_message decode (message_of begin body [])
    ≡ with_exit_code (message_of begin body []) (decode body)
parse_cse_message-framed_example =
    parse_cse_message-framed begin body [] decode no_stdout no_stderr some_body

region-agent_example :
    (Agent.get_cloud_target_env (text "USNat East")
      ≡ Helpers.get_cloud_target_env (text "USNat East"))
    × (Region.get_cloud_target_env (text "USNat East") ≡ (
        if has_prefix (compact (text "USNat East")) (text "usnat")
        then us_nat_cloud
        else if has_prefix (compact (text "USNat East")) (text "ussec")
        then us_sec_cloud
        else Agent.get_cloud_target_env (text "USNat East")))
region-agent_example = region-agent (text "USNat East")
