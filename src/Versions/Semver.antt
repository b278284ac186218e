-- ===== src/Versions/Semver.antt =====
-- What the program calls of github.com/blang/semver, a package that is not in the repository.
use agent_baker.Prelude.{ℕ, Bool, true, not, ◌||◌, List, ◌≡◌}
use agent_baker.Text.{Text}

-- `semver.Make` gives a version and an error; callers that drop the error use the version alone.
pub record Semver : Type 1 where
  pub Version : Type 0
  pub make : Text → Version
  pub is_valid : Text → Bool
  pub major : Version → ℕ
  pub minor : Version → ℕ
  pub pre : Version → List Text
  pub to_string : Version → Text
  pub gt : Version → Version → Bool
  pub ge : Version → Version → Bool
  pub lt : Version → Version → Bool
  pub le : Version → Version → Bool

-- The documented behaviour of the comparisons: precedence is a total preorder, and the four tests
-- read it in the four directions.
pub record IsOrdered (s : Semver) : Type 0 where
  pub gt_lt : (a b : s.Version) → s.gt a b ≡ s.lt b a
  pub ge_lt : (a b : s.Version) → s.ge a b ≡ not (s.lt a b)
  pub le_ge : (a b : s.Version) → s.le a b ≡ s.ge b a
  pub ge_trans : (a b c : s.Version) → s.ge a b ≡ true → s.ge b c ≡ true → s.ge a c ≡ true
  pub ge_total : (a b : s.Version) → (s.ge a b || s.ge b a) ≡ true

-- `IsKubernetesVersionGe`, in pkg/agent/utils.go and in pkg/agent/datamodel/versions.go.
unfoldable pub is_kubernetes_version_ge : (s : Semver) → Text → Text → Bool
is_kubernetes_version_ge s actual_version version = s.ge (s.make actual_version) (s.make version)
