-- ===== src/Versions/Range.antt =====
-- pkg/agent/datamodel/versions.go: the versions above, below or between others, and the least and
-- the greatest.
pub mod Between
pub mod Extremes
use agent_baker.Prelude.{
  Bool, true, false, not, ◌&&◌, ◌||◌, List, [], ◌∷◌, ◌++◌, map, Option, none, some, keep,
  if◌then◌else◌,
}
use agent_baker.Prelude.Panic.{◌>>=◌}
use agent_baker.Text.{Text, beq}
use agent_baker.Versions.Semver.{Semver}

-- The inner loop of `GetVersionsBetween` for one `lv`: it is added once for each equal `gv`.
unfoldable pub copies_of : Text → List Text → List Text
copies_of lv [] = []
copies_of lv (gv ∷ greater_than) =
    let rest = copies_of lv greater_than in if beq lv gv then lv ∷ rest else rest

-- The two loops of `GetVersionsBetween`.
unfoldable pub common : List Text → List Text → List Text
unfolding copies_of
common greater_than [] = []
common greater_than (lv ∷ less_than) = copies_of lv greater_than ++ common greater_than less_than

-- `xs[0]`
unfoldable pub first {ℓ} : {A : Type ℓ} → List A → Option A
first [] = none
first (x ∷ xs) = some x

-- `xs[len(xs)-1]`
unfoldable pub last {ℓ} : {A : Type ℓ} → List A → Option A
last [] = none
last (x ∷ []) = some x
last (x ∷ y ∷ xs) = last (y ∷ xs)

module _ (s : Semver) where
  -- `len(sv.Pre) != 0`
  unfoldable pub is_pre_release : s.Version → Bool
  is_pre_release sv = elim (s.pre sv) [ [] ↦ false | ◌∷◌ _ _ ↦ true ]

  -- One round of the loop of `GetVersionsGt` keeps `v`.
  unfoldable pub is_above : s.Version → Bool → Bool → Text → Bool
  is_above min_version inclusive pre_releases v =
      let sv = s.make v in
      if not pre_releases && is_pre_release sv
      then false
      else inclusive && s.ge sv min_version || not inclusive && s.gt sv min_version

  -- `GetVersionsGt`
  unfoldable pub get_versions_gt : List Text → Text → Bool → Bool → List Text
  get_versions_gt versions version inclusive pre_releases =
      keep (is_above (s.make version) inclusive pre_releases) versions

  -- One round of the loop of `GetVersionsLt` keeps `v`.
  unfoldable pub is_below : s.Version → Bool → Bool → Text → Bool
  is_below max_version inclusive pre_releases v =
      let sv = s.make v in
      if not pre_releases && is_pre_release sv
      then false
      else inclusive && s.le sv max_version || not inclusive && s.lt sv max_version

  -- `GetVersionsLt`
  unfoldable pub get_versions_lt : List Text → Text → Bool → Bool → List Text
  get_versions_lt versions version inclusive pre_releases =
      keep (is_below (s.make version) inclusive pre_releases) versions

  -- `GetVersionsBetween`
  unfoldable pub get_versions_between : List Text → Text → Text → Bool → Bool → List Text
  get_versions_between versions version_min version_max inclusive pre_releases =
      let pre = is_pre_release (s.make version_min) || pre_releases in
      common (get_versions_gt versions version_min inclusive pre)
        (get_versions_lt versions version_max inclusive pre)

  -- The loop of `getSortedSemverVersions`.
  unfoldable pub semver_versions : List Text → Bool → List s.Version
  semver_versions [] pre_release = []
  semver_versions (v ∷ versions) pre_release =
      let rest = semver_versions versions pre_release in
      if not (is_pre_release (s.make v)) || pre_release then s.make v ∷ rest else rest

  -- `getSortedSemverVersions`; `sort` is `semver.Sort`.
  unfoldable pub get_sorted_semver_versions :
      (List s.Version → List s.Version) → List Text → Bool → List s.Version
  get_sorted_semver_versions sort versions pre_release = sort (semver_versions versions pre_release)

  -- `GetMinVersion`: an index out of range is `none`.
  unfoldable pub get_min_version :
      (List s.Version → List s.Version) → List Text → Bool → Option Text
  get_min_version sort [] pre_release = some []
  get_min_version sort (v ∷ versions) pre_release = do
    least ← first (get_sorted_semver_versions sort (v ∷ versions) pre_release)
    some (s.to_string least)

  -- `GetMaxVersion`
  unfoldable pub get_max_version :
      (List s.Version → List s.Version) → List Text → Bool → Option Text
  get_max_version sort [] pre_release = some []
  get_max_version sort (v ∷ versions) pre_release = do
    greatest ← last (get_sorted_semver_versions sort (v ∷ versions) pre_release)
    some (s.to_string greatest)
