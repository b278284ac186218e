-- ===== src/Methods/Windows.antt =====
-- pkg/agent/datamodel/types.go: the methods of `WindowsProfile`.
use agent_baker.Prelude.{Bool, true, false, not, [], map, Option, none, some, if◌then◌else◌}
use agent_baker.Text.{Text, text, is_empty, join}
use agent_baker.Datamodel.Profiles.{ImageReference}
use agent_baker.Datamodel.Os.{ContainerdWindowsRuntimes, RuntimeHandlers, WindowsProfile}
use agent_baker.Methods.Kubernetes.{bool_or_false}
use agent_baker.Methods.Profiles.{is_nonempty, is_valid_reference}

-- `if p != nil { return *p }; return default`
abbrev pub bool_or : Option Bool → Bool → Bool
bool_or none otherwise = otherwise
bool_or (some b) otherwise = b

-- `if s != "" { return s }; return default`
abbrev pub text_or : Text → Text → Text
text_or s otherwise = if is_empty s then otherwise else s

-- `WindowsProfile.IsCSIProxyEnabled`
unfoldable pub is_csi_proxy_enabled : WindowsProfile → Bool
is_csi_proxy_enabled w = bool_or w.enable_csi_proxy false

-- `WindowsProfile.HasSecrets`
unfoldable pub windows_has_secrets : WindowsProfile → Bool
windows_has_secrets w = is_nonempty w.secrets

-- `WindowsProfile.HasCustomImage`
unfoldable pub has_custom_image : WindowsProfile → Bool
has_custom_image w = not (is_empty w.windows_image_source_url)

-- `WindowsProfile.GetSSHEnabled`
unfoldable pub get_ssh_enabled : WindowsProfile → Bool
get_ssh_enabled w = bool_or w.ssh_enabled true

abbrev is_valid_pointer : Option ImageReference → Bool
is_valid_pointer none = false
is_valid_pointer (some i) = is_valid_reference i

-- `WindowsProfile.HasImageRef`
unfoldable pub has_image_ref : WindowsProfile → Bool
has_image_ref w = is_valid_pointer w.image_ref

-- `WindowsProfile.GetWindowsSku`
unfoldable pub get_windows_sku : WindowsProfile → Text
get_windows_sku w = text_or w.windows_sku (text "Datacenter-Core-1809-with-Containers-smalldisk")

-- `WindowsProfile.GetWindowsDockerVersion`
unfoldable pub get_windows_docker_version : WindowsProfile → Text
get_windows_docker_version w = text_or w.windows_docker_version (text "20.10.6")

abbrev sandbox_isolation : Option ContainerdWindowsRuntimes → Text
sandbox_isolation none = text "process"
sandbox_isolation (some runtimes) = text_or runtimes.default_sandbox_isolation (text "process")

-- `WindowsProfile.GetDefaultContainerdWindowsSandboxIsolation`
unfoldable pub get_default_containerd_windows_sandbox_isolation : WindowsProfile → Text
get_default_containerd_windows_sandbox_isolation w = sandbox_isolation w.containerd_windows_runtimes

abbrev handler_names : Option ContainerdWindowsRuntimes → Text
handler_names none = []
handler_names (some runtimes) =
    if is_nonempty runtimes.runtime_handlers
    then join (map RuntimeHandlers.build_number runtimes.runtime_handlers) (text ",")
    else []

-- `WindowsProfile.GetContainerdWindowsRuntimeHandlers`
unfoldable pub get_containerd_windows_runtime_handlers : WindowsProfile → Text
get_containerd_windows_runtime_handlers w = handler_names w.containerd_windows_runtimes

-- `WindowsProfile.IsAlwaysPullWindowsPauseImage`
unfoldable pub is_always_pull_windows_pause_image : WindowsProfile → Bool
is_always_pull_windows_pause_image w = bool_or_false w.always_pull_windows_pause_image

-- `WindowsProfile.IsWindowsSecureTlsEnabled`
unfoldable pub is_windows_secure_tls_enabled : WindowsProfile → Bool
is_windows_secure_tls_enabled w = bool_or w.windows_secure_tls_enabled false
