-- ===== src/Generator/Extension.antt =====
-- pkg/agent/utils.go: the commands that install a node's extension.
use agent_baker.Prelude.{not, List, [], ◌∷◌, ◌++◌, Option, none, some, if◌then◌else◌}
use agent_baker.Prelude.Panic.{◌>>=◌}
use agent_baker.Text.{Text, text, beq, is_empty, equal_fold, concat}
use agent_baker.Datamodel.Profiles.{Extension, ExtensionProfile}
use agent_baker.Datamodel.Cluster.{AgentPoolProfile}
use agent_baker.Datamodel.Bootstrapping.{NodeBootstrappingConfiguration}
use agent_baker.Template.Access.{properties_of}

-- `getExtensionURL`
unfoldable pub get_extension_url : Text → Text → Text → Text → Text → Text
get_extension_url root_url extension_name version file_name query =
    (root_url
      ++ (text "extensions"
          ++ (text "/" ++ (extension_name ++ (text "/" ++ (version ++ (text "/" ++ file_name)))))))
    ++ (if not (is_empty query) then text "?" ++ query else [])

-- The search of both functions below, which follows a nil profile and panics for an unknown name.
unfoldable pub profile_named : Text → List (Option ExtensionProfile) → Option ExtensionProfile
profile_named name [] = none
profile_named name (none ∷ extension_profiles) = none
profile_named name (some ep ∷ extension_profiles) =
    if equal_fold ep.name name then some ep else profile_named name extension_profiles

abbrev script_url : ExtensionProfile → Text
script_url e = get_extension_url e.root_url e.name e.version e.script e.url_query

abbrev script_path : ExtensionProfile → Text
script_path e = text "/opt/azure/containers/extensions/" ++ (e.name ++ (text "/" ++ e.script))

abbrev linux_commands : Text → ExtensionProfile → Text
linux_commands curl_ca_cert_opt e = concat (
    text "- sudo /usr/bin/curl --retry 5 --retry-delay 10 --retry-max-time 30 -o "
    ∷ script_path e
    ∷ text " --create-dirs "
    ∷ curl_ca_cert_opt
    ∷ text " \""
    ∷ script_url e
    ∷ text "\" \n- sudo /bin/chmod 744 "
    ∷ script_path e
    ∷ text " \n- sudo "
    ∷ script_path e
    ∷ text " ',parameters('"
    ∷ e.name
    ∷ text "Parameters'),' > /var/log/"
    ∷ e.name
    ∷ text "-output.log"
    ∷ [])

-- `makeExtensionScriptCommands`, which panics for an unknown extension
unfoldable pub make_extension_script_commands :
    Option Extension → Text → List (Option ExtensionProfile) → Option Text
make_extension_script_commands extension curl_ca_cert_opt extension_profiles = do
  wanted ← extension
  found ← profile_named wanted.name extension_profiles
  some (linux_commands curl_ca_cert_opt found)

abbrev windows_directory : ExtensionProfile → Text
windows_directory e = text "$env:SystemDrive:/AzureData/extensions/" ++ e.name

abbrev windows_path : ExtensionProfile → Text
windows_path e = windows_directory e ++ (text "/" ++ e.script)

abbrev windows_commands : ExtensionProfile → Text
windows_commands e = concat (
    text "New-Item -ItemType Directory -Force -Path \""
    ∷ windows_directory e
    ∷ text "\" ; curl.exe --retry 5 --retry-delay 0 -L \""
    ∷ script_url e
    ∷ text "\" -o \""
    ∷ windows_path e
    ∷ text "\" ; powershell \""
    ∷ windows_path e
    ∷ text " `\"',parameters('"
    ∷ e.name
    ∷ text "Parameters'),'`\"\"\n"
    ∷ [])

-- `makeWindowsExtensionScriptCommands`
unfoldable pub make_windows_extension_script_commands :
    Option Extension → List (Option ExtensionProfile) → Option Text
make_windows_extension_script_commands extension extension_profiles = do
  wanted ← extension
  found ← profile_named wanted.name extension_profiles
  some (windows_commands found)

-- `makeAgentExtensionScriptCommands`
unfoldable pub make_agent_extension_script_commands :
    NodeBootstrappingConfiguration → AgentPoolProfile → Option Text
make_agent_extension_script_commands config profile = do
  properties ← properties_of config
  if beq profile.os_type (text "Windows")
      then make_windows_extension_script_commands profile.preprovision_extension
          properties.extension_profiles
      else make_extension_script_commands profile.preprovision_extension []
          properties.extension_profiles

abbrev preprovision :
    NodeBootstrappingConfiguration → AgentPoolProfile → Option Extension → Option Text
preprovision config profile none = some []
preprovision config profile (some extension) =
    make_agent_extension_script_commands config profile >>= λ commands. some (text "\n" ++ commands)

-- The template function `GetKubernetesAgentPreprovisionYaml` of pkg/agent/baker.go.
unfoldable pub get_kubernetes_agent_preprovision_yaml :
    NodeBootstrappingConfiguration → Option AgentPoolProfile → Option Text
get_kubernetes_agent_preprovision_yaml config profile = do
  a ← profile
  preprovision config a a.preprovision_extension
