-- ===== src/Versions/Select.antt =====
-- pkg/agent/datamodel/versions.go: the supported versions, and the choice of one from a request.
use agent_baker.Prelude.{Bool, true, false, not, ◌&&◌, ◌||◌, List, [], ◌∷◌, ◌++◌, if◌then◌else◌}
use agent_baker.Prelude.Int.{pos}
use agent_baker.Prelude.Result.{Result, ok, err}
use agent_baker.Text.{Text, text, beq, is_empty, trim_prefix, string_in_slice}
use agent_baker.Text.Number.{format_int}
use agent_baker.GoMap.{GoMap, get_or}
use agent_baker.Versions.Semver.{Semver, is_kubernetes_version_ge}
use agent_baker.Versions.Table.{
  all_kubernetes_supported_versions, all_kubernetes_windows_supported_versions,
}

-- The loop over a table in `GetAllSupportedKubernetesVersions`.
unfoldable pub offered : Bool → GoMap Bool → List Text
offered is_update [] = []
offered is_update ((ver, supported) ∷ rest) =
    let others = offered is_update rest in if is_update || supported then ver ∷ others else others

-- `sort.Slice` with the test of the source, `less x y`.
unfoldable pub insert_by : (Text → Text → Bool) → Text → List Text → List Text
insert_by less x [] = x ∷ []
insert_by less x (y ∷ ys) =
    let rest = insert_by less x ys in if less x y then x ∷ y ∷ ys else y ∷ rest

unfoldable pub sort_slice : (Text → Text → Bool) → List Text → List Text
unfolding insert_by
sort_slice less [] = []
sort_slice less (x ∷ xs) = insert_by less x (sort_slice less xs)

-- The table for an operating system.
unfoldable pub supported_table : Bool → GoMap Bool
supported_table true = all_kubernetes_windows_supported_versions
supported_table false = all_kubernetes_supported_versions

-- `for _, ver := range supportedVersions { if test(ver) { version = ver; break } }`
unfoldable pub first_match : (Text → Bool) → List Text → Text
first_match test [] = []
first_match test (ver ∷ supported_versions) =
    if test ver then ver else first_match test supported_versions

-- `supportedVersions == nil`
unfoldable pub is_nil : List Text → Bool
is_nil [] = true
is_nil (x ∷ xs) = false

-- The errors of `IsValidMinVersion`.
pub data MinVersionError : Type 0 where
  not_supported : Text → Text → Text → MinVersionError
  could_not_validate_version : Text → MinVersionError
  could_not_validate_min_version : MinVersionError

module _ (s : Semver) where
  -- `GetAllSupportedKubernetesVersions`: `less(i, j)` is `IsKubernetesVersionGe(versions[j], versions[i])`.
  unfoldable pub get_all_supported_kubernetes_versions : Bool → Bool → List Text
  get_all_supported_kubernetes_versions is_update has_windows =
      sort_slice (λ x y. is_kubernetes_version_ge s y x)
        (offered is_update (supported_table has_windows))

  -- `fmt.Sprintf("%d.%d", sv.Major, sv.Minor)`
  unfoldable pub release : s.Version → Text
  release sv = format_int (pos (s.major sv)) ++ text "." ++ format_int (pos (s.minor sv))

  -- `version` after a round of the loop that meets `ver` of the wanted release.
  unfoldable pub later_of : Text → Text → Text
  later_of version ver =
      if is_empty version then ver else if s.gt (s.make ver) (s.make version) then ver else version

  -- The loop of `GetLatestPatchVersion`, which returns at a version it cannot read.
  unfoldable pub latest_from : Text → Text → List Text → Text
  latest_from major_minor version [] = version
  latest_from major_minor version (ver ∷ versions_list) =
      if s.is_valid ver
      then latest_from major_minor
          (if beq (release (s.make ver)) major_minor then later_of version ver else version)
          versions_list
      else version

  -- `GetLatestPatchVersion`
  unfoldable pub get_latest_patch_version : Text → List Text → Text
  get_latest_patch_version major_minor versions_list = latest_from major_minor [] versions_list

  -- `GetDefaultKubernetesVersion`, with `KubernetesDefaultRelease` and `KubernetesDefaultReleaseWindows`.
  unfoldable pub get_default_kubernetes_version : Bool → Text
  get_default_kubernetes_version has_windows =
      get_latest_patch_version (if has_windows then text "1.14" else text "1.13")
        (get_all_supported_kubernetes_versions false has_windows)

  -- `GetSupportedKubernetesVersion`
  unfoldable pub get_supported_kubernetes_version : Text → Bool → Text
  get_supported_kubernetes_version version has_windows =
      if get_or (supported_table has_windows) version false
      then version
      else get_default_kubernetes_version has_windows

  -- `GetSupportedVersions`; no version at all is the nil slice.
  unfoldable pub get_supported_versions : Text → Bool → Bool → List Text × Text
  get_supported_versions orch_type is_update has_windows =
      if beq orch_type (text "Kubernetes")
      then (
        get_all_supported_kubernetes_versions is_update has_windows,
        get_default_kubernetes_version has_windows,
      )
      else ([], [])

  -- The cases of `RationalizeReleaseAndVersion`, once the versions are known and the prefixes off.
  unfoldable pub rationalize : Text → Text → List Text → Text → Text
  rationalize orch_rel orch_ver supported_versions default_version =
      if is_empty orch_rel && is_empty orch_ver
      then default_version
      else if is_empty orch_ver
      then get_latest_patch_version orch_rel supported_versions
      else if is_empty orch_rel
      then first_match (λ ver. beq ver orch_ver) supported_versions
      else first_match (λ ver. beq (release (s.make ver)) orch_rel && beq ver orch_ver)
          supported_versions

  -- `RationalizeReleaseAndVersion`
  unfoldable pub rationalize_release_and_version : Text → Text → Text → Bool → Bool → Text
  rationalize_release_and_version orch_type orch_rel orch_ver is_update has_windows =
      let supported = get_supported_versions orch_type is_update has_windows in
      if is_nil supported.0
      then []
      else rationalize (trim_prefix orch_rel (text "v")) (trim_prefix orch_ver (text "v"))
          supported.0 supported.1

  -- `GetValidPatchVersion`
  unfoldable pub get_valid_patch_version : Text → Text → Bool → Bool → Text
  get_valid_patch_version orch_type orch_ver is_update has_windows =
      if is_empty orch_ver
      then rationalize_release_and_version orch_type [] [] is_update has_windows
      else let version =
          rationalize_release_and_version orch_type [] orch_ver is_update has_windows in
        (if is_empty version
          then (if s.is_valid orch_ver
              then rationalize_release_and_version orch_type (release (s.make orch_ver)) []
                  is_update has_windows
              else [])
          else version)

  -- `IsSupportedKubernetesVersion`
  unfoldable pub is_supported_kubernetes_version : Text → Bool → Bool → Bool
  is_supported_kubernetes_version version is_update has_windows =
      string_in_slice version (get_all_supported_kubernetes_versions is_update has_windows)

  -- `IsValidMinVersion`
  unfoldable pub is_valid_min_version : Text → Text → Text → Text → Result MinVersionError Bool
  is_valid_min_version orch_type orch_release orch_version min_version =
      let version =
        rationalize_release_and_version orch_type orch_release orch_version false false in
      if is_empty version
      then err (not_supported orch_type orch_release orch_version)
      else if not (s.is_valid version)
      then err (could_not_validate_version version)
      else if not (s.is_valid min_version)
      then err could_not_validate_min_version
      else ok (not (s.lt (s.make version) (s.make min_version)))
