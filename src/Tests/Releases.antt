-- ===== src/Tests/Releases.antt =====
-- The choice of a version, at a list of three.
use agent_baker.Prelude.{
  true, false, not, ◌&&◌, ◌||◌, List, [], ◌∷◌, ◌≡◌, refl, none, All, In, keep, ◌++◌, ◌⊎◌, inl,
  if◌then◌else◌,
}
use agent_baker.Text.{Text, text, is_empty, string_in_slice, trim_prefix, has_prefix, beq}
use agent_baker.Text.Sort.{IsUnique}
use agent_baker.GoMap.{lookup}
use agent_baker.Versions.Select.{
  supported_table, get_latest_patch_version, get_all_supported_kubernetes_versions,
  rationalize_release_and_version, is_supported_kubernetes_version, get_valid_patch_version,
}
use agent_baker.Versions.Supported.{is_offered, is_supported_kubernetes_version_lem}
use agent_baker.Versions.Latest.{
  IsOf, IsAtLeast, get_latest_patch_version_lem, get_latest_patch_version-unreadable,
}
use agent_baker.Versions.Rationalize.{
  IsNoneOrIn, rationalize_release_and_version-IsNoneOrIn, rationalize_release_and_version-exact,
}
use agent_baker.Versions.Patch.{IsAnswer, get_valid_patch_version_lem}
use agent_baker.Versions.Range.{
  is_pre_release, is_above, is_below, get_versions_between, get_min_version, get_max_version,
}
use agent_baker.Versions.Range.Between.{get_versions_between_lem}
use agent_baker.Versions.Range.Extremes.{
  IsAccepted, IsExtreme, get_min_version_lem, get_min_version-panics,
}
use agent_baker.Tests.Numbers.{numbers, numbers-IsOrdered, sort, sort-Sorts}

abbrev three : List Text
three = text "1.13.11" ∷ text "1.13.12" ∷ text "1.14.07" ∷ []

three-valid : All (λ v. numbers.is_valid v ≡ true) three
unfolding text
three-valid = (refl, (refl, (refl, tt)))

get_latest_patch_version_lem_example :
    ((get_latest_patch_version numbers (text "1.13") three ≡ [])
      ⊎ ((string_in_slice (get_latest_patch_version numbers (text "1.13") three) three ≡ true)
          × IsOf numbers numbers-IsOrdered
              (text "1.13")
              (get_latest_patch_version numbers (text "1.13") three)))
    × ((w : Text)
        → string_in_slice w three ≡ true
        → IsOf numbers numbers-IsOrdered (text "1.13") w
        → IsAtLeast numbers numbers-IsOrdered
            (get_latest_patch_version numbers (text "1.13") three)
            w)
get_latest_patch_version_lem_example =
    get_latest_patch_version_lem numbers numbers-IsOrdered (text "1.13") refl three three-valid

get_latest_patch_version-unreadable_example :
    get_latest_patch_version numbers (text "1.14") (three ++ [] ∷ text "1.14.08" ∷ [])
    ≡ get_latest_patch_version numbers (text "1.14") three
get_latest_patch_version-unreadable_example =
    get_latest_patch_version-unreadable numbers (text "1.14") [] three (text "1.14.08" ∷ []) refl

rationalize_release_and_version-IsNoneOrIn_example :
    IsNoneOrIn
      (get_all_supported_kubernetes_versions numbers true false)
      (rationalize_release_and_version numbers (text "Kubernetes") (text "1.15") [] true false)
rationalize_release_and_version-IsNoneOrIn_example =
    rationalize_release_and_version-IsNoneOrIn numbers (text "Kubernetes") (text "1.15") [] true
      false

patch_given : is_empty (trim_prefix (text "1.17.99") (text "v")) ≡ false
unfolding text trim_prefix has_prefix
patch_given = refl

get_valid_patch_version_lem_example :
    IsAnswer numbers
      (text "1.17.99")
      false
      true
      (get_valid_patch_version numbers (text "Kubernetes") (text "1.17.99") false true)
get_valid_patch_version_lem_example =
    get_valid_patch_version_lem numbers (text "1.17.99") false true patch_given

v_given : is_empty (trim_prefix (text "v1.19.0") (text "v")) ≡ false
unfolding text trim_prefix has_prefix
v_given = refl

rationalize_release_and_version-exact_example :
    rationalize_release_and_version numbers (text "Kubernetes") [] (text "v1.19.0") false false ≡ (
      if is_supported_kubernetes_version numbers
        (trim_prefix (text "v1.19.0") (text "v"))
        false
        false
      then trim_prefix (text "v1.19.0") (text "v")
      else [])
rationalize_release_and_version-exact_example =
    rationalize_release_and_version-exact numbers (text "v1.19.0") false false v_given

is_supported_kubernetes_version_lem_example :
    is_supported_kubernetes_version numbers (text "1.13.10") true false
    ≡ is_offered true (lookup (supported_table false) (text "1.13.10"))
is_supported_kubernetes_version_lem_example =
    is_supported_kubernetes_version_lem numbers (text "1.13.10") true false

three-IsUnique : IsUnique three
unfolding text beq string_in_slice
three-IsUnique = (refl, (refl, (refl, tt)))

get_versions_between_lem_example :
    get_versions_between numbers three (text "1.13.11") (text "1.14.07") false false
    ≡ keep
        (λ v.
          is_above numbers
            (numbers.make (text "1.13.11"))
            false
            (is_pre_release numbers (numbers.make (text "1.13.11")) || false)
            v
          && is_below numbers
              (numbers.make (text "1.14.07"))
              false
              (is_pre_release numbers (numbers.make (text "1.13.11")) || false)
              v)
        three
get_versions_between_lem_example =
    get_versions_between_lem numbers three (text "1.13.11") (text "1.14.07") false false
      three-IsUnique

first-IsAccepted : IsAccepted numbers false (text "1.13.11")
unfolding text is_pre_release
first-IsAccepted = refl

first_listed : In (text "1.13.11") three
first_listed = inl refl

get_min_version_lem_example :
    IsExtreme numbers numbers.ge three false (get_min_version numbers sort three false)
    × IsExtreme numbers
        (λ b m. numbers.ge m b)
        three
        false
        (get_max_version numbers sort three false)
get_min_version_lem_example =
    get_min_version_lem numbers numbers-IsOrdered sort sort-Sorts three false (text "1.13.11")
      first_listed first-IsAccepted

rc_rejected :
    All
      (λ w. (not (is_pre_release numbers (numbers.make w)) || false) ≡ false)
      (text "1.17.0-rc.1" ∷ [])
unfolding text is_pre_release
rc_rejected = (refl, tt)

get_min_version-panics_example :
    (get_min_version numbers sort (text "1.17.0-rc.1" ∷ []) false ≡ none)
    × (get_max_version numbers sort (text "1.17.0-rc.1" ∷ []) false ≡ none)
get_min_version-panics_example =
    get_min_version-panics numbers sort sort-Sorts (text "1.17.0-rc.1") [] false rc_rejected
