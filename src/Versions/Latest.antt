-- ===== src/Versions/Latest.antt =====
-- `GetLatestPatchVersion` against the versions of its list.
use agent_baker.Prelude.{
  true, false, List, [], ◌∷◌, ◌++◌, ◌≡◌, refl, arith, if◌then◌else◌, All, inl, inr, Bool-cases, ◌⊎◌,
}
use mathlib.Core.Path.{subst}
use agent_baker.Text.{Text, beq, is_empty, string_in_slice}
use agent_baker.Text.Equality.{beq_refl, beq-cases}
use agent_baker.Versions.Semver.{Semver, IsOrdered}
use agent_baker.Versions.Select.{release, later_of, latest_from, get_latest_patch_version}

pub latest_from-one :
    (s : Semver) (major_minor version : Text) (vs : List Text)
    → (latest_from s major_minor version vs ≡ version)
      ⊎ ((string_in_slice (latest_from s major_minor version vs) vs ≡ true)
          × (beq (release s (s.make (latest_from s major_minor version vs))) major_minor ≡ true))
unfolding latest_from string_in_slice later_of
latest_from-one s major_minor version [] = inl refl
latest_from-one s major_minor version (v ∷ vs) = ground (
  arith,
  latest_from-one s major_minor version vs,
  latest_from-one s major_minor v vs,
  beq_refl v,
)

module _ (s : Semver) (order : IsOrdered s) where
  ge_refl : (a : s.Version) → s.ge a a ≡ true
  ge_refl a = ground (arith, order.ge_total a a)

  ge_of_gt : (a b : s.Version) → s.gt a b ≡ true → s.ge a b ≡ true
  ge_of_gt a b h = ground (arith, order.ge_total a b, order.ge_lt b a, order.gt_lt a b)

  ge_of_not_gt : (a b : s.Version) → s.gt a b ≡ false → s.ge b a ≡ true
  ge_of_not_gt a b h = ground (arith, order.ge_lt b a, order.gt_lt a b)

  -- `r` is a version, at least `v`.
  pub record IsAtLeast (r v : Text) : Type 0 where
    pub some_version : is_empty r ≡ false
    pub ge : s.ge (s.make r) (s.make v) ≡ true

  IsAtLeast-trans : (a b c : Text) → IsAtLeast a b → IsAtLeast b c → IsAtLeast a c
  IsAtLeast-trans a b c h g = record {
    some_version = h.some_version;
    ge = order.ge_trans (s.make a) (s.make b) (s.make c) h.ge g.ge;
  }

  IsAtLeast-refl : (a : Text) → is_empty a ≡ false → IsAtLeast a a
  IsAtLeast-refl a h = record { some_version = h; ge = ge_refl (s.make a) }

  later_of-new :
      (version ver : Text) → is_empty ver ≡ false → IsAtLeast (later_of s version ver) ver
  unfolding later_of
  later_of-new [] ver h = IsAtLeast-refl ver h
  later_of-new (c ∷ v) ver h = elim (Bool-cases (s.gt (s.make ver) (s.make (c ∷ v)))) [
    | inl e ↦ rw e (IsAtLeast-refl ver h)
    | inr e ↦
        rw e (record { some_version = refl; ge = ge_of_not_gt (s.make ver) (s.make (c ∷ v)) e })
  ]

  later_of-old :
      (version ver : Text)
      → is_empty version ≡ false
      → is_empty ver ≡ false
      → IsAtLeast (later_of s version ver) version
  unfolding later_of
  later_of-old [] ver h g = absurd (cc h)
  later_of-old (c ∷ v) ver h g = elim (Bool-cases (s.gt (s.make ver) (s.make (c ∷ v)))) [
    | inl e ↦ rw e (record { some_version = g; ge = ge_of_gt (s.make ver) (s.make (c ∷ v)) e })
    | inr e ↦ rw e (IsAtLeast-refl (c ∷ v) refl)
  ]

  abbrev pub IsOf : Text → Text → Type 0
  IsOf major_minor v = beq (release s (s.make v)) major_minor ≡ true

  module _ (major_minor : Text) (empty_invalid : s.is_valid [] ≡ false) where
    valid_some : (v : Text) → s.is_valid v ≡ true → is_empty v ≡ false
    valid_some [] h = absurd (cc (h, empty_invalid))
    valid_some (c ∷ v) h = refl

    latest_from-old :
        (version : Text) (vs : List Text)
        → All (λ v. s.is_valid v ≡ true) vs
        → is_empty version ≡ false
        → IsAtLeast (latest_from s major_minor version vs) version
    unfolding latest_from
    latest_from-old version [] h e = IsAtLeast-refl version e
    latest_from-old version (v ∷ vs) (valid, h) e =
        elim (Bool-cases (beq (release s (s.make v)) major_minor)) [
          | inl of ↦
              let old = later_of-old version v e (valid_some v valid) in
              rw (valid, of)
                (IsAtLeast-trans (latest_from s major_minor (later_of s version v) vs)
                  (later_of s version v) version
                  (latest_from-old (later_of s version v) vs h old.some_version) old)
          | inr not_of ↦ rw (valid, not_of) (latest_from-old version vs h e)
        ]

    latest_from-each :
        (version : Text) (vs : List Text) (w : Text)
        → All (λ v. s.is_valid v ≡ true) vs
        → string_in_slice w vs ≡ true
        → IsOf major_minor w
        → IsAtLeast (latest_from s major_minor version vs) w
    unfolding latest_from string_in_slice
    latest_from-each version [] w h e of = absurd (cc)
    latest_from-each version (v ∷ vs) w (valid, h) e of_w = elim (beq-cases v w) [
      | inl same ↦
          let new = later_of-new version v (valid_some v valid) in
          rw (valid, same, of_w)
            (subst (λ x. IsAtLeast (latest_from s major_minor (later_of s version x) vs) x) same
              (IsAtLeast-trans (latest_from s major_minor (later_of s version v) vs)
                (later_of s version v) v
                (latest_from-old (later_of s version v) vs h new.some_version) new))
      | inr other ↦ rw valid (
          latest_from-each
            (if beq (release s (s.make v)) major_minor then later_of s version v else version) vs w
            h (rw other at e) of_w)
    ]

    -- With the documented order of semver: if every version of the list can be read, and the empty
    -- text cannot, the result is a version of the list and of the release, or empty; and no version
    -- of the list and of the release is later than it, so that it is empty only if there is none.
    pub get_latest_patch_version_lem :
        (vs : List Text)
        → All (λ v. s.is_valid v ≡ true) vs
        → ((get_latest_patch_version s major_minor vs ≡ [])
            ⊎ ((string_in_slice (get_latest_patch_version s major_minor vs) vs ≡ true)
                × IsOf major_minor (get_latest_patch_version s major_minor vs)))
          × ((w : Text)
              → string_in_slice w vs ≡ true
              → IsOf major_minor w
              → IsAtLeast (get_latest_patch_version s major_minor vs) w)
    unfolding get_latest_patch_version
    get_latest_patch_version_lem vs h =
        (latest_from-one s major_minor [] vs, λ w e of. latest_from-each [] vs w h e of)

latest_from-unreadable :
    (s : Semver) (major_minor version bad : Text) (vs ws : List Text)
    → s.is_valid bad ≡ false
    → latest_from s major_minor version (vs ++ bad ∷ ws) ≡ latest_from s major_minor version vs
unfolding latest_from later_of
latest_from-unreadable s major_minor version bad [] ws h = rw h refl
latest_from-unreadable s major_minor version bad (v ∷ vs) ws h = ground (
  arith,
  latest_from-unreadable s major_minor version bad vs ws h,
  latest_from-unreadable s major_minor v bad vs ws h,
)

-- A version that cannot be read ends the search: the versions after it are not looked at.
pub get_latest_patch_version-unreadable :
    (s : Semver) (major_minor bad : Text) (vs ws : List Text)
    → s.is_valid bad ≡ false
    → get_latest_patch_version s major_minor (vs ++ bad ∷ ws)
      ≡ get_latest_patch_version s major_minor vs
unfolding get_latest_patch_version
get_latest_patch_version-unreadable s major_minor bad vs ws h =
    latest_from-unreadable s major_minor [] bad vs ws h
