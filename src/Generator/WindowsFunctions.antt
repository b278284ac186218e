-- ===== src/Generator/WindowsFunctions.antt =====
-- pkg/agent/baker.go: the archive of the functions of a Windows node.
use agent_baker.Prelude.{List, [], ◌∷◌, Option, some}
use agent_baker.Prelude.Panic.{◌>>=◌}
use agent_baker.Text.{Text}
use agent_baker.Text.Base64.{base64_encode}
use agent_baker.Generator.Assets.{
  kubernetes_windows_agent_functions_ps1, kubernetes_windows_config_functions_ps1,
  kubernetes_windows_containerd_functions_ps1, kubernetes_windows_csi_proxy_functions_ps1,
  kubernetes_windows_kubelet_functions_ps1, kubernetes_windows_cni_functions_ps1,
  kubernetes_windows_azure_cni_functions_ps1, kubernetes_windows_hosts_config_agent_functions_ps1,
  kubernetes_windows_open_ssh_function_ps1, kubernetes_windows_calico_function_ps1,
  kubernetes_windows_cse_helper_ps1, kubernetes_windows_hypervtemplatetoml,
}

-- The parts of the archive, in order.
abbrev pub windows_parts : List Text
windows_parts =
    kubernetes_windows_agent_functions_ps1 ∷ kubernetes_windows_config_functions_ps1
    ∷ kubernetes_windows_containerd_functions_ps1 ∷ kubernetes_windows_csi_proxy_functions_ps1
    ∷ kubernetes_windows_kubelet_functions_ps1 ∷ kubernetes_windows_cni_functions_ps1
    ∷ kubernetes_windows_azure_cni_functions_ps1
    ∷ kubernetes_windows_hosts_config_agent_functions_ps1 ∷ kubernetes_windows_open_ssh_function_ps1
    ∷ kubernetes_windows_calico_function_ps1 ∷ kubernetes_windows_cse_helper_ps1
    ∷ kubernetes_windows_hypervtemplatetoml ∷ []

-- Each part with its content; an asset that is missing panics.
unfoldable pub archive_entries : (Text → Option Text) → List Text → Option (List (Text × Text))
archive_entries asset [] = some []
archive_entries asset (part ∷ parts) = do
  part_contents ← asset part
  rest ← archive_entries asset parts
  some ((part, part_contents) ∷ rest)

-- The template function `GetKubernetesWindowsAgentFunctions`. `asset` is `templates.Asset`, and `zip`
-- what package archive/zip writes for the entries, with `none` for an error.
unfoldable pub get_kubernetes_windows_agent_functions :
    (Text → Option Text) → (List (Text × Text) → Option Text) → Option Text
get_kubernetes_windows_agent_functions asset zip = do
  entries ← archive_entries asset windows_parts
  archive ← zip entries
  some (base64_encode archive)
