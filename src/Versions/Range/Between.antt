-- ===== src/Versions/Range/Between.antt =====
-- `GetVersionsBetween` against a filter.
use agent_baker.Prelude.{
  Bool, true, false, ◌&&◌, ◌||◌, List, [], ◌∷◌, ◌≡◌, refl, arith, keep, if◌then◌else◌,
}
use agent_baker.Text.{Text, string_in_slice}
use agent_baker.Text.Equality.{beq_iff, beq_refl}
use agent_baker.Text.Sort.{IsUnique}
use agent_baker.Versions.Semver.{Semver}
use agent_baker.Versions.Range.{
  copies_of, common, is_pre_release, is_above, is_below, get_versions_gt, get_versions_lt,
  get_versions_between,
}

module _ (above : Text → Bool) where
  copies_of-absent :
      (v : Text) (vs : List Text) → string_in_slice v vs ≡ false → copies_of v (keep above vs) ≡ []
  unfolding copies_of keep string_in_slice
  copies_of-absent v [] h = refl
  copies_of-absent v (x ∷ vs) h = ground (arith, copies_of-absent v vs, beq_iff x v, beq_iff v x)

  copies_of-present :
      (v : Text) (vs : List Text)
      → IsUnique vs
      → string_in_slice v vs ≡ true
      → copies_of v (keep above vs) ≡ (if above v then v ∷ [] else [])
  unfolding copies_of keep string_in_slice
  copies_of-present v [] u h = absurd (cc)
  copies_of-present v (x ∷ vs) (f, u) h =
      ground (arith, copies_of-present v vs u, copies_of-absent v vs, beq_iff x v, beq_iff v x, f)

  common-keep :
      (below : Text → Bool) (vs ws : List Text)
      → IsUnique vs
      → ((w : Text) → string_in_slice w ws ≡ true → string_in_slice w vs ≡ true)
      → common (keep above vs) (keep below ws) ≡ keep (λ v. above v && below v) ws
  unfolding common keep string_in_slice
  common-keep below vs [] u h = refl
  common-keep below vs (w ∷ ws) u h =
      let rest = common-keep below vs ws u (λ x e. h x (ground (arith, e))) in
      ground (arith, rest, copies_of-present w vs u (h w (ground (arith, beq_refl w))))

-- From a list without repetition the function picks, in the order of the list, the versions within
-- both bounds; it takes pre-releases too if the lower bound is one.
pub get_versions_between_lem :
    (s : Semver) (versions : List Text) (version_min version_max : Text)
    (inclusive pre_releases : Bool)
    → IsUnique versions
    → get_versions_between s versions version_min version_max inclusive pre_releases ≡ (
        let pre = is_pre_release s (s.make version_min) || pre_releases in
        keep
          (λ v.
            is_above s (s.make version_min) inclusive pre v
            && is_below s (s.make version_max) inclusive pre v)
          versions)
unfolding get_versions_between get_versions_gt get_versions_lt
get_versions_between_lem s versions version_min version_max inclusive pre_releases unique =
    common-keep _ _ versions versions unique (λ w e. e)
