-- ===== src/Versions/Supported.antt =====
-- Which versions are supported: the sorted list against the table.
use agent_baker.Prelude.{
  Bool, true, false, not, ◌&&◌, ◌||◌, List, [], ◌∷◌, ◌≡◌, refl, Option, none, some, arith, inl, inr,
  ◌∙◌,
}
use mathlib.Core.Path.{subst}
use agent_baker.Text.{Text, text, beq, string_in_slice}
use agent_baker.Text.Equality.{beq_iff, beq-cases}
use agent_baker.GoMap.{GoMap, lookup, delete, HasUniqueKeys, IsFresh, keys}
use agent_baker.GoMap.Laws.{insert-HasUniqueKeys, delete-HasUniqueKeys}
use agent_baker.Versions.Semver.{Semver}
use agent_baker.Versions.Table.{
  all_kubernetes_supported_versions, all_kubernetes_windows_supported_versions, no_windows_versions,
  delete_all,
}
use agent_baker.Versions.Select.{
  offered, insert_by, sort_slice, supported_table, get_all_supported_kubernetes_versions,
  is_supported_kubernetes_version,
}

string_in_slice-insert_by :
    (less : Text → Text → Bool) (v x : Text) (xs : List Text)
    → string_in_slice v (insert_by less x xs) ≡ (beq x v || string_in_slice v xs)
unfolding string_in_slice insert_by
string_in_slice-insert_by less v x [] = ground arith
string_in_slice-insert_by less v x (y ∷ ys) = ground (arith, string_in_slice-insert_by less v x ys)

pub string_in_slice-sort_slice :
    (less : Text → Text → Bool) (v : Text) (xs : List Text)
    → string_in_slice v (sort_slice less xs) ≡ string_in_slice v xs
unfolding string_in_slice sort_slice
string_in_slice-sort_slice less v [] = refl
string_in_slice-sort_slice less v (x ∷ xs) =
    rw
      (
        string_in_slice-insert_by less v x (sort_slice less xs),
        string_in_slice-sort_slice less v xs,
      )
      ground arith

abbrev pub is_offered : Bool → Option Bool → Bool
is_offered is_update none = false
is_offered is_update (some supported) = is_update || supported

offered-fresh :
    (is_update : Bool) (m : GoMap Bool) (v : Text)
    → IsFresh m v
    → string_in_slice v (offered is_update m) ≡ false
unfolding offered string_in_slice
offered-fresh is_update [] v h = refl
offered-fresh is_update ((k, b) ∷ m) v (e, h) =
    ground (arith, offered-fresh is_update m v h, beq_iff k v, beq_iff v k)

string_in_slice-offered :
    (is_update : Bool) (m : GoMap Bool) (v : Text)
    → HasUniqueKeys m
    → string_in_slice v (offered is_update m) ≡ is_offered is_update (lookup m v)
unfolding offered string_in_slice lookup
string_in_slice-offered is_update [] v h = refl
string_in_slice-offered is_update ((k, b) ∷ m) v (f, h) = elim (beq-cases k v) [
  | inl same ↦ ground (arith, offered-fresh is_update m v (subst (IsFresh m) same f), beq_iff k v)
  | inr other ↦ ground (arith, string_in_slice-offered is_update m v h, other)
]

-- Whoever is offered for a new cluster is offered for an update.
pub offered_update :
    (is_update : Bool) (m : GoMap Bool) (v : Text)
    → string_in_slice v (offered false m) ≡ true
    → string_in_slice v (offered is_update m) ≡ true
unfolding offered string_in_slice
offered_update is_update [] v h = ground arith
offered_update is_update ((k, b) ∷ m) v h = ground (arith, offered_update is_update m v)

has_unique_keys : GoMap Bool → Bool
has_unique_keys [] = true
has_unique_keys ((k, b) ∷ m) = not (string_in_slice k (keys m)) && has_unique_keys m

IsFresh-of : (m : GoMap Bool) (k : Text) → string_in_slice k (keys m) ≡ false → IsFresh m k
unfolding string_in_slice keys
IsFresh-of [] k h = tt
IsFresh-of ((j, b) ∷ m) k h = (ground arith, IsFresh-of m k (ground arith))

HasUniqueKeys-of : (m : GoMap Bool) → has_unique_keys m ≡ true → HasUniqueKeys m
unfolding has_unique_keys
HasUniqueKeys-of [] h = tt
HasUniqueKeys-of ((k, b) ∷ m) h = (IsFresh-of m k (ground arith), HasUniqueKeys-of m (ground arith))

table_unique : has_unique_keys all_kubernetes_supported_versions ≡ true
unfolding has_unique_keys all_kubernetes_supported_versions string_in_slice keys beq text
table_unique = refl

delete_all-HasUniqueKeys :
    (m : GoMap Bool) (versions : List Text)
    → HasUniqueKeys m
    → HasUniqueKeys (delete_all m versions)
unfolding delete_all
delete_all-HasUniqueKeys m [] h = h
delete_all-HasUniqueKeys m (v ∷ versions) h =
    delete_all-HasUniqueKeys (delete m v) versions (delete-HasUniqueKeys m v h)

windows_unique : HasUniqueKeys all_kubernetes_windows_supported_versions
unfolding all_kubernetes_windows_supported_versions
windows_unique =
    insert-HasUniqueKeys (delete_all all_kubernetes_supported_versions no_windows_versions)
      (text "1.8.12") true
      (delete_all-HasUniqueKeys all_kubernetes_supported_versions no_windows_versions
        (HasUniqueKeys-of all_kubernetes_supported_versions table_unique))

supported_table-HasUniqueKeys : (has_windows : Bool) → HasUniqueKeys (supported_table has_windows)
unfolding supported_table
supported_table-HasUniqueKeys true = windows_unique
supported_table-HasUniqueKeys false =
    HasUniqueKeys-of all_kubernetes_supported_versions table_unique

-- A version is on the list exactly if the table has it, marked for new clusters unless the list
-- is for an update; and `IsSupportedKubernetesVersion` tests just that.
pub is_supported_kubernetes_version_lem :
    (s : Semver) (v : Text) (is_update has_windows : Bool)
    → is_supported_kubernetes_version s v is_update has_windows
      ≡ is_offered is_update (lookup (supported_table has_windows) v)
unfolding is_supported_kubernetes_version get_all_supported_kubernetes_versions
is_supported_kubernetes_version_lem s v is_update has_windows =
    string_in_slice-sort_slice _ v (offered is_update (supported_table has_windows))
    ∙ string_in_slice-offered is_update (supported_table has_windows) v
        (supported_table-HasUniqueKeys has_windows)
