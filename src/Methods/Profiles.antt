-- ===== src/Methods/Profiles.antt =====
-- pkg/agent/datamodel/types.go: the methods of `LinuxProfile`, `FeatureFlags` and
-- `ImageReference`.
use agent_baker.Prelude.{
  Bool, true, false, not, ◌&&◌, List, [], ◌∷◌, Option, none, some, if◌then◌else◌,
}
use agent_baker.Text.{Text, text, beq, is_empty}
use agent_baker.Datamodel.Profiles.{CustomSearchDomain, FeatureFlags, ImageReference}
use agent_baker.Datamodel.Os.{LinuxProfile}

abbrev pub is_nonempty {ℓ} : {A : Type ℓ} → List A → Bool
is_nonempty [] = false
is_nonempty (x ∷ xs) = true

-- `LinuxProfile.HasSecrets`
unfoldable pub linux_has_secrets : LinuxProfile → Bool
linux_has_secrets l = is_nonempty l.secrets

abbrev pub is_search_domain_set : Option CustomSearchDomain → Bool
is_search_domain_set none = false
is_search_domain_set (some d) =
    not (is_empty d.name) && (not (is_empty d.realm_password) && not (is_empty d.realm_user))

-- `LinuxProfile.HasSearchDomain`
unfoldable pub has_search_domain : LinuxProfile → Bool
has_search_domain l = is_search_domain_set l.custom_search_domain

-- `FeatureFlags.IsFeatureEnabled`
unfoldable pub is_feature_enabled : Option FeatureFlags → Text → Bool
is_feature_enabled none feature = false
is_feature_enabled (some f) feature =
    if beq feature (text "CSERunInBackground")
    then f.enable_cse_run_in_background
    else if beq feature (text "BlockOutboundInternet")
    then f.block_outbound_internet
    else if beq feature (text "EnableIPv6DualStack")
    then f.enable_ipv6_dual_stack
    else if beq feature (text "EnableTelemetry")
    then f.enable_telemetry
    else if beq feature (text "EnableIPv6Only")
    then f.enable_ipv6_only
    else if beq feature (text "EnableWinDSR")
    then f.enable_win_dsr
    else false

-- `ImageReference.IsValid`
unfoldable pub is_valid_reference : ImageReference → Bool
is_valid_reference i = not (is_empty i.name) && not (is_empty i.resource_group)
