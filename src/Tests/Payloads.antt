-- ===== src/Tests/Payloads.antt =====
-- The custom data of a Linux node, with a template that renders to two lines.
use agent_baker.Prelude.{
  ℕ, zero, suc, false, [], ◌∷◌, ◌++◌, All, ◌≡◌, refl, arith, Option, none, some,
}
use agent_baker.Prelude.Result.{ok}
use agent_baker.Text.{Text, text, equal_fold, to_lower, beq, lower}
use agent_baker.Text.Base64.{base64_encode}
use agent_baker.GoMap.{GoMap, keys}
use agent_baker.Datamodel.Kubernetes.{zero_orchestrator_profile}
use agent_baker.Datamodel.Cluster.{
  AgentPoolProfile, zero_agent_pool_profile, zero_container_service, zero_properties,
}
use agent_baker.Datamodel.Bootstrapping.{
  NodeBootstrappingConfiguration, zero_node_bootstrapping_configuration,
}
use agent_baker.Kubelet.CommandLine.{is_kubernetes, is_kubelet_config_file_enabled}
use agent_baker.Kubelet.Rewrite.{validate_and_set_linux}
use agent_baker.Methods.Pool.{is_windows}
use agent_baker.Methods.Cluster.{
  service_is_aks_custom_cloud, is_vhd_distro_for_all_nodes, has_windows, any_pool,
}
use agent_baker.Generator.SingleLine.{custom_data_object}
use agent_baker.Generator.SingleLine.Escaped.{normalized}
use agent_baker.Generator.SingleLine.Decoded.{IsPrintable, ReadsStrings, unquote}
use agent_baker.Generator.Parameters.{get_parameters, kubernetes_assignments, vnet_assignments}
use agent_baker.Generator.CustomData.{
  get_custom_data_variables, custom_data_scripts, packed, get_base64_encoded_gzipped_custom_script,
}
use agent_baker.Generator.Payload.{Surroundings, linux_custom_data, get_node_bootstrapping_payload}
use agent_baker.Generator.Payload.Roundtrip.{get_node_bootstrapping_payload_lem}
use agent_baker.Tests.Numbers.{numbers}

abbrev drop : ℕ → Text → Text
drop zero s = s
drop (suc n) [] = []
drop (suc n) (c ∷ s) = drop n s

abbrev drop_last_two : Text → Text
drop_last_two [] = []
drop_last_two (c ∷ []) = []
drop_last_two (c ∷ d ∷ []) = []
drop_last_two (c ∷ d ∷ e ∷ s) = c ∷ drop_last_two (d ∷ e ∷ s)

abbrev named_custom_data : Option Text → Option (GoMap Text)
named_custom_data none = none
named_custom_data (some value) = some ((text "customData", value) ∷ [])

-- Reads the one object that the generator writes.
abbrev read_object : Text → Option (GoMap Text)
read_object json = named_custom_data (unquote (drop_last_two (drop 16 json)))

drop_last_two-append : (s : Text) (x y : ℕ) → drop_last_two (s ++ x ∷ y ∷ []) ≡ s
drop_last_two-append [] x y = refl
drop_last_two-append (c ∷ []) x y = refl
drop_last_two-append (c ∷ d ∷ []) x y = refl
drop_last_two-append (c ∷ d ∷ e ∷ s) x y = rw (drop_last_two-append (d ∷ e ∷ s) x y)

read_object-ReadsStrings : ReadsStrings read_object
unfolding custom_data_object text
read_object-ReadsStrings = record {
  reads = λ body value small e. rw (drop_last_two-append body b'"' b'}', e);
}

abbrev rendered : Text
rendered = b'a' ∷ 13 ∷ 10 ∷ b'"' ∷ []

abbrev surroundings : Surroundings
surroundings = record {
  semver = numbers;
  range_keys = keys;
  script = λ name config. some [];
  render = λ name config parameters variables. ok rendered;
  random_uint32 = λ name. 42;
  gzip = λ s. s;
  format_float = λ f. [];
  json_unmarshal = read_object;
}

abbrev profile : AgentPoolProfile
profile = record zero_agent_pool_profile { os_type = text "Linux" }

abbrev config : NodeBootstrappingConfiguration
config = record zero_node_bootstrapping_configuration {
  container_service = some (record zero_container_service {
    properties =
        some (record zero_properties { orchestrator_profile = some zero_orchestrator_profile });
  });
  agent_pool_profile = some profile;
}

linux : is_windows profile ≡ false
unfolding is_windows equal_fold to_lower lower beq text
linux = refl

rendered_here : linux_custom_data surroundings config ≡ some rendered
unfolding linux_custom_data validate_and_set_linux is_kubelet_config_file_enabled get_parameters
    kubernetes_assignments is_kubernetes equal_fold to_lower beq text has_windows
    get_custom_data_variables custom_data_scripts service_is_aks_custom_cloud
    is_vhd_distro_for_all_nodes packed get_base64_encoded_gzipped_custom_script any_pool
    vnet_assignments
rendered_here = refl

rendered-IsPrintable : All IsPrintable (normalized rendered)
rendered-IsPrintable = ground arith

get_node_bootstrapping_payload_lem_example :
    get_node_bootstrapping_payload surroundings config ≡ some (base64_encode (normalized rendered))
get_node_bootstrapping_payload_lem_example =
    get_node_bootstrapping_payload_lem surroundings config profile rendered read_object-ReadsStrings
      refl linux rendered_here rendered-IsPrintable
