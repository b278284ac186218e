-- ===== src/Generator/Payload.antt =====
-- pkg/agent/baker.go: the custom data and the command of a node. `render` is the generated asset of
-- a name, executed by text/template with the functions of a configuration, its parameters and its
-- variables; a panic is `none`.
pub mod Roundtrip
use agent_baker.Prelude.{
  ℕ, Bool, true, false, List, [], ◌∷◌, ◌++◌, Option, none, some, if◌then◌else◌,
}
use agent_baker.Prelude.Panic.{◌>>=◌}
use agent_baker.Prelude.Result.{Result, err, ok}
use agent_baker.Prelude.Int.{Float64}
use agent_baker.Text.{Text, text, replace_all, trim_space}
use agent_baker.Text.Base64.{base64_encode}
use agent_baker.GoMap.{GoMap}
use agent_baker.Datamodel.Profiles.{Extension}
use agent_baker.Datamodel.Cluster.{AgentPoolProfile, ContainerService, Properties}
use agent_baker.Datamodel.Bootstrapping.{NodeBootstrappingConfiguration}
use agent_baker.Versions.Semver.{Semver}
use agent_baker.Kubelet.Rewrite.{validate_and_set_linux, validate_and_set_windows}
use agent_baker.Methods.Pool.{is_windows}
use agent_baker.Generator.Assets.{
  kubernetes_node_custom_data_yaml, kubernetes_windows_agent_custom_data_ps1,
  kubernetes_cse_command_string, kubernetes_windows_agent_cse_command_ps1,
}
use agent_baker.Generator.Params.{ParamsMap}
use agent_baker.Generator.Parameters.{get_parameters}
use agent_baker.Generator.CustomData.{get_custom_data_variables}
use agent_baker.Generator.Variables.{get_windows_custom_data_variables, get_cse_command_variables}
use agent_baker.Generator.Extension.{make_agent_extension_script_commands}
use agent_baker.Generator.SingleLine.{
  escape_single_line, get_custom_data_from_json, custom_data_object,
}

-- What the generator calls outside the repository's own code: text/template over the generated
-- assets, once with the functions of the configuration alone and once with parameters and
-- variables too, and the packages math/rand, compress/gzip, strconv and encoding/json.
pub record Surroundings : Type 1 where
  pub semver : Semver
  pub range_keys : GoMap Bool → List Text
  pub script : Text → NodeBootstrappingConfiguration → Option Text
  pub render : Text → NodeBootstrappingConfiguration → ParamsMap → ParamsMap → Result Text Text
  pub random_uint32 : Text → ℕ
  pub gzip : Text → Text
  pub format_float : Float64 → Text
  pub json_unmarshal : Text → Option (GoMap Text)

-- `if e != nil { panic(e) }`
abbrev pub or_panic : Result Text Text → Option Text
or_panic (err e) = none
or_panic (ok str) = some str

-- The properties as a call left them.
abbrev pub with_properties :
    NodeBootstrappingConfiguration → Properties → NodeBootstrappingConfiguration
with_properties config p = elim config.container_service [
  | none ↦ config
  | some cs ↦ record config { container_service = some (record cs { properties = some p }) }
]

-- The template of a Linux node, executed: `getSingleLine` for `getLinuxNodeCustomDataJSONObject`.
unfoldable pub linux_custom_data : Surroundings → NodeBootstrappingConfiguration → Option Text
linux_custom_data env config = do
  config' ← validate_and_set_linux env.semver env.range_keys config
  parameters ← get_parameters env.format_float config'
  variables ← get_custom_data_variables env.script env.gzip config'
  or_panic (env.render kubernetes_node_custom_data_yaml config' parameters variables)

-- `getLinuxNodeCustomDataJSONObject`
unfoldable pub get_linux_node_custom_data_json_object :
    Surroundings → NodeBootstrappingConfiguration → Option Text
get_linux_node_custom_data_json_object env config =
    linux_custom_data env config >>= λ str. some (custom_data_object (escape_single_line str))

abbrev preprovision_commands :
    NodeBootstrappingConfiguration → AgentPoolProfile → Option Extension → Option Text
preprovision_commands config profile none = some []
preprovision_commands config profile (some extension) =
    make_agent_extension_script_commands config profile

-- `getWindowsNodeCustomDataJSONObject`
unfoldable pub get_windows_node_custom_data_json_object :
    Surroundings → NodeBootstrappingConfiguration → Option Text
get_windows_node_custom_data_json_object env config =
    let config' = validate_and_set_windows config in
    do
      profile ← config'.agent_pool_profile
      parameters ← get_parameters env.format_float config'
      (variables, p) ← get_windows_custom_data_variables env.random_uint32 config'
      str ← or_panic (
          env.render kubernetes_windows_agent_custom_data_ps1 (with_properties config' p) parameters
            variables)
      preprovision_cmd ← preprovision_commands config' profile profile.preprovision_extension
      some (
          custom_data_object (
            replace_all (escape_single_line str) (text "PREPROVISION_EXTENSION")
              (escape_single_line (trim_space preprovision_cmd))))

-- `GetNodeBootstrappingPayload`
unfoldable pub get_node_bootstrapping_payload :
    Surroundings → NodeBootstrappingConfiguration → Option Text
get_node_bootstrapping_payload env config = do
  profile ← config.agent_pool_profile
  json_str ←
      (if is_windows profile
        then get_windows_node_custom_data_json_object env config
        else get_linux_node_custom_data_json_object env config)
  custom_data ← get_custom_data_from_json env.json_unmarshal json_str
  some (base64_encode custom_data)

-- The rendered command of a node, for the asset of its operating system.
abbrev cse_command : Surroundings → NodeBootstrappingConfiguration → Text → Option Text
cse_command env config asset = do
  parameters ← get_parameters env.format_float config
  (variables, p) ← get_cse_command_variables env.random_uint32 config
  or_panic (env.render asset (with_properties config p) parameters variables)

-- `getLinuxNodeCSECommand`
unfoldable pub get_linux_node_cse_command :
    Surroundings → NodeBootstrappingConfiguration → Option Text
get_linux_node_cse_command env config =
    cse_command env config kubernetes_cse_command_string >>= λ str.
    some (replace_all str (10 ∷ []) (text " "))

-- `getWindowsNodeCSECommand`
unfoldable pub get_windows_node_cse_command :
    Surroundings → NodeBootstrappingConfiguration → Option Text
get_windows_node_cse_command env config =
    cse_command env config kubernetes_windows_agent_cse_command_ps1 >>= λ str.
    some (replace_all (replace_all str (text "\\\"") (text "\"")) (10 ∷ []) (text " "))

-- `GetNodeBootstrappingCmd`
unfoldable pub get_node_bootstrapping_cmd :
    Surroundings → NodeBootstrappingConfiguration → Option Text
get_node_bootstrapping_cmd env config = do
  profile ← config.agent_pool_profile
  if is_windows profile
      then get_windows_node_cse_command env config
      else get_linux_node_cse_command env config
