-- ===== src/Versions/Table.antt =====
-- pkg/agent/datamodel/versions.go: the tables of the Kubernetes versions.
use agent_baker.Prelude.{Bool, true, false, List, [], ◌∷◌}
use agent_baker.Text.{Text, text}
use agent_baker.GoMap.{GoMap, insert, delete}

-- `AllKubernetesSupportedVersions`
unfoldable pub all_kubernetes_supported_versions : GoMap Bool
all_kubernetes_supported_versions =
    (text "1.6.6", false)
    ∷ (text "1.6.9", true)
    ∷ (text "1.6.11", false)
    ∷ (text "1.6.12", false)
    ∷ (text "1.6.13", false)
    ∷ (text "1.7.0", false)
    ∷ (text "1.7.1", false)
    ∷ (text "1.7.2", false)
    ∷ (text "1.7.4", false)
    ∷ (text "1.7.5", false)
    ∷ (text "1.7.7", false)
    ∷ (text "1.7.9", false)
    ∷ (text "1.7.10", false)
    ∷ (text "1.7.12", false)
    ∷ (text "1.7.13", false)
    ∷ (text "1.7.14", false)
    ∷ (text "1.7.15", false)
    ∷ (text "1.7.16", false)
    ∷ (text "1.8.0", false)
    ∷ (text "1.8.1", false)
    ∷ (text "1.8.2", false)
    ∷ (text "1.8.4", false)
    ∷ (text "1.8.6", false)
    ∷ (text "1.8.7", false)
    ∷ (text "1.8.8", false)
    ∷ (text "1.8.9", false)
    ∷ (text "1.8.10", false)
    ∷ (text "1.8.11", false)
    ∷ (text "1.8.12", false)
    ∷ (text "1.8.13", false)
    ∷ (text "1.8.14", false)
    ∷ (text "1.8.15", false)
    ∷ (text "1.9.0", false)
    ∷ (text "1.9.1", false)
    ∷ (text "1.9.2", false)
    ∷ (text "1.9.3", false)
    ∷ (text "1.9.4", false)
    ∷ (text "1.9.5", false)
    ∷ (text "1.9.6", false)
    ∷ (text "1.9.7", false)
    ∷ (text "1.9.8", false)
    ∷ (text "1.9.9", false)
    ∷ (text "1.9.10", false)
    ∷ (text "1.9.11", false)
    ∷ (text "1.10.0-beta.2", false)
    ∷ (text "1.10.0-beta.4", false)
    ∷ (text "1.10.0-rc.1", false)
    ∷ (text "1.10.0", false)
    ∷ (text "1.10.1", false)
    ∷ (text "1.10.2", false)
    ∷ (text "1.10.3", false)
    ∷ (text "1.10.4", false)
    ∷ (text "1.10.5", false)
    ∷ (text "1.10.6", false)
    ∷ (text "1.10.7", false)
    ∷ (text "1.10.8", false)
    ∷ (text "1.10.9", false)
    ∷ (text "1.10.12", false)
    ∷ (text "1.10.13", false)
    ∷ (text "1.11.0-alpha.1", false)
    ∷ (text "1.11.0-alpha.2", false)
    ∷ (text "1.11.0-beta.1", false)
    ∷ (text "1.11.0-beta.2", false)
    ∷ (text "1.11.0-rc.1", false)
    ∷ (text "1.11.0-rc.2", false)
    ∷ (text "1.11.0-rc.3", false)
    ∷ (text "1.11.0", false)
    ∷ (text "1.11.1", false)
    ∷ (text "1.11.2", false)
    ∷ (text "1.11.3", false)
    ∷ (text "1.11.4", false)
    ∷ (text "1.11.5", false)
    ∷ (text "1.11.6", false)
    ∷ (text "1.11.7", false)
    ∷ (text "1.11.8", false)
    ∷ (text "1.11.9", false)
    ∷ (text "1.11.10", false)
    ∷ (text "1.12.0-alpha.1", false)
    ∷ (text "1.12.0-beta.0", false)
    ∷ (text "1.12.0-beta.1", false)
    ∷ (text "1.12.0-rc.1", false)
    ∷ (text "1.12.0-rc.2", false)
    ∷ (text "1.12.0", false)
    ∷ (text "1.12.1", false)
    ∷ (text "1.12.2", false)
    ∷ (text "1.12.4", false)
    ∷ (text "1.12.5", false)
    ∷ (text "1.12.6", false)
    ∷ (text "1.12.7", false)
    ∷ (text "1.12.8", false)
    ∷ (text "1.12.9", false)
    ∷ (text "1.13.0-alpha.1", false)
    ∷ (text "1.13.0-alpha.2", false)
    ∷ (text "1.13.1", false)
    ∷ (text "1.13.2", false)
    ∷ (text "1.13.3", false)
    ∷ (text "1.13.4", false)
    ∷ (text "1.13.5", false)
    ∷ (text "1.13.6", false)
    ∷ (text "1.13.7", false)
    ∷ (text "1.13.8", false)
    ∷ (text "1.13.9", false)
    ∷ (text "1.13.10", false)
    ∷ (text "1.13.11", true)
    ∷ (text "1.13.12", true)
    ∷ (text "1.14.0-alpha.1", false)
    ∷ (text "1.14.0-alpha.2", false)
    ∷ (text "1.14.0-beta.1", false)
    ∷ (text "1.14.0-beta.2", false)
    ∷ (text "1.14.0-rc.1", false)
    ∷ (text "1.14.0", false)
    ∷ (text "1.14.1", false)
    ∷ (text "1.14.2", false)
    ∷ (text "1.14.3", false)
    ∷ (text "1.14.4", false)
    ∷ (text "1.14.5", false)
    ∷ (text "1.14.6", false)
    ∷ (text "1.14.7", true)
    ∷ (text "1.14.8", true)
    ∷ (text "1.14.10", false)
    ∷ (text "1.15.0-alpha.1", false)
    ∷ (text "1.15.0-alpha.2", false)
    ∷ (text "1.15.0-alpha.3", false)
    ∷ (text "1.15.0-beta.1", false)
    ∷ (text "1.15.0-beta.2", false)
    ∷ (text "1.15.0-rc.1", false)
    ∷ (text "1.15.0", false)
    ∷ (text "1.15.1", false)
    ∷ (text "1.15.2", false)
    ∷ (text "1.15.3", false)
    ∷ (text "1.15.4", false)
    ∷ (text "1.15.5", false)
    ∷ (text "1.15.7", true)
    ∷ (text "1.15.8", false)
    ∷ (text "1.15.9", true)
    ∷ (text "1.15.10", true)
    ∷ (text "1.15.11", true)
    ∷ (text "1.15.12", true)
    ∷ (text "1.16.0-alpha.1", false)
    ∷ (text "1.16.0-alpha.2", false)
    ∷ (text "1.16.0-alpha.3", false)
    ∷ (text "1.16.0-beta.1", false)
    ∷ (text "1.16.0-beta.2", false)
    ∷ (text "1.16.0-rc.1", false)
    ∷ (text "1.16.0", false)
    ∷ (text "1.16.1", false)
    ∷ (text "1.16.2", false)
    ∷ (text "1.16.4", false)
    ∷ (text "1.16.5", false)
    ∷ (text "1.16.6", true)
    ∷ (text "1.16.7", true)
    ∷ (text "1.16.8", false)
    ∷ (text "1.16.9", true)
    ∷ (text "1.16.10", true)
    ∷ (text "1.16.13", true)
    ∷ (text "1.16.15", true)
    ∷ (text "1.17.0-alpha.1", false)
    ∷ (text "1.17.0-alpha.2", false)
    ∷ (text "1.17.0-alpha.3", false)
    ∷ (text "1.17.0-beta.1", false)
    ∷ (text "1.17.0-beta.2", false)
    ∷ (text "1.17.0-rc.1", false)
    ∷ (text "1.17.0-rc.2", false)
    ∷ (text "1.17.0", false)
    ∷ (text "1.17.1", false)
    ∷ (text "1.17.2", true)
    ∷ (text "1.17.3", true)
    ∷ (text "1.17.4", true)
    ∷ (text "1.17.5", true)
    ∷ (text "1.17.6", false)
    ∷ (text "1.17.7", true)
    ∷ (text "1.17.9", true)
    ∷ (text "1.17.11", true)
    ∷ (text "1.18.0", false)
    ∷ (text "1.18.1", true)
    ∷ (text "1.18.2", true)
    ∷ (text "1.18.3", false)
    ∷ (text "1.18.4", true)
    ∷ (text "1.18.6", true)
    ∷ (text "1.19.0", true)
    ∷ []

-- The versions that the function below deletes.
unfoldable pub no_windows_versions : List Text
no_windows_versions =
    text "1.6.6"
    ∷ text "1.6.9"
    ∷ text "1.6.11"
    ∷ text "1.6.12"
    ∷ text "1.6.13"
    ∷ text "1.7.0"
    ∷ text "1.7.1"
    ∷ text "1.8.13"
    ∷ text "1.8.14"
    ∷ text "1.8.15"
    ∷ text "1.10.0-beta.2"
    ∷ text "1.10.0-beta.4"
    ∷ text "1.10.0-rc.1"
    ∷ text "1.11.0-alpha.1"
    ∷ text "1.11.0-alpha.2"
    ∷ []

-- `for _, version := range … { delete(ret, version) }`
unfoldable pub delete_all : GoMap Bool → List Text → GoMap Bool
delete_all m [] = m
delete_all m (version ∷ versions) = delete_all (delete m version) versions

-- `AllKubernetesWindowsSupportedVersions`, as `getAllKubernetesWindowsSupportedVersionsMap` builds it.
unfoldable pub all_kubernetes_windows_supported_versions : GoMap Bool
all_kubernetes_windows_supported_versions =
    insert (delete_all all_kubernetes_supported_versions no_windows_versions) (text "1.8.12") true
