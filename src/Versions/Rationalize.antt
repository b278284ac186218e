-- ===== src/Versions/Rationalize.antt =====
-- The version that is chosen against the supported ones.
use agent_baker.Prelude.{
  Bool, true, false, ◌&&◌, List, [], ◌∷◌, ◌≡◌, refl, arith, if◌then◌else◌, inl, inr, Bool-cases,
  ◌⊎◌,
}
use agent_baker.Text.{Text, text, beq, is_empty, trim_prefix, string_in_slice}
use agent_baker.Text.Equality.{beq_iff, beq_refl}
use agent_baker.Versions.Semver.{Semver}
use agent_baker.Versions.Supported.{offered_update, string_in_slice-sort_slice}
use agent_baker.Versions.Latest.{latest_from-one}
use agent_baker.Versions.Select.{
  is_nil, release, first_match, rationalize, get_latest_patch_version,
  get_all_supported_kubernetes_versions, get_default_kubernetes_version, get_supported_versions,
  rationalize_release_and_version, supported_table, offered, is_supported_kubernetes_version,
}

-- Empty, or on the list.
abbrev pub IsNoneOrIn : List Text → Text → Type 0
IsNoneOrIn vs v = (v ≡ []) ⊎ (string_in_slice v vs ≡ true)

first_match-IsNoneOrIn : (test : Text → Bool) (vs : List Text) → IsNoneOrIn vs (first_match test vs)
unfolding first_match string_in_slice
first_match-IsNoneOrIn test [] = inl refl
first_match-IsNoneOrIn test (v ∷ vs) = ground (arith, first_match-IsNoneOrIn test vs, beq_refl v)

module _ (s : Semver) where
  latest-IsNoneOrIn :
      (major_minor : Text) (vs : List Text)
      → IsNoneOrIn vs (get_latest_patch_version s major_minor vs)
  unfolding get_latest_patch_version
  latest-IsNoneOrIn major_minor vs = elim (latest_from-one s major_minor [] vs) [
    | inl e ↦ inl e
    | inr (e, _) ↦ inr e
  ]

  all_update :
      (is_update has_windows : Bool) (v : Text)
      → string_in_slice v (get_all_supported_kubernetes_versions s false has_windows) ≡ true
      → string_in_slice v (get_all_supported_kubernetes_versions s is_update has_windows) ≡ true
  unfolding get_all_supported_kubernetes_versions
  all_update is_update has_windows v h =
      rw (string_in_slice-sort_slice _ v (offered is_update (supported_table has_windows))) (
        offered_update is_update (supported_table has_windows) v
          (rw (string_in_slice-sort_slice _ v (offered false (supported_table has_windows))) at h))

  default-IsNoneOrIn :
      (is_update has_windows : Bool)
      → IsNoneOrIn
          (get_all_supported_kubernetes_versions s is_update has_windows)
          (get_default_kubernetes_version s has_windows)
  unfolding get_default_kubernetes_version
  default-IsNoneOrIn is_update has_windows =
      elim (latest-IsNoneOrIn (if has_windows then text "1.14" else text "1.13")
        (get_all_supported_kubernetes_versions s false has_windows)) [
          | inl e ↦ inl e
          | inr e ↦ inr (all_update is_update has_windows _ e)
        ]

  rationalize-IsNoneOrIn :
      (orch_rel orch_ver : Text) (vs : List Text) (default_version : Text)
      → IsNoneOrIn vs default_version
      → IsNoneOrIn vs (rationalize s orch_rel orch_ver vs default_version)
  unfolding rationalize
  rationalize-IsNoneOrIn orch_rel orch_ver vs default_version h = ground (
    arith,
    latest-IsNoneOrIn orch_rel vs,
    first_match-IsNoneOrIn (λ ver. beq ver orch_ver) vs,
    first_match-IsNoneOrIn (λ ver. beq (release s (s.make ver)) orch_rel && beq ver orch_ver) vs,
  )

  -- `RationalizeReleaseAndVersion` returns the empty text or a version that is supported, also
  -- where it returns the default and where the list is for an update.
  pub rationalize_release_and_version-IsNoneOrIn :
      (orch_type orch_rel orch_ver : Text) (is_update has_windows : Bool)
      → IsNoneOrIn
          (get_all_supported_kubernetes_versions s is_update has_windows)
          (rationalize_release_and_version s orch_type orch_rel orch_ver is_update has_windows)
  unfolding rationalize_release_and_version get_supported_versions is_nil
  rationalize_release_and_version-IsNoneOrIn orch_type orch_rel orch_ver is_update has_windows =
      elim (Bool-cases (beq orch_type (text "Kubernetes"))) [
        | inl e ↦
            rw e
              (elim (Bool-cases
                (is_nil (get_all_supported_kubernetes_versions s is_update has_windows))) [
                  | inl n ↦ rw n (inl refl)
                  | inr n ↦
                      rw n
                        (rationalize-IsNoneOrIn _ _ _ _ (default-IsNoneOrIn is_update has_windows))
                ])
        | inr e ↦ rw e (inl refl)
      ]

  nil_lem : (v : Text) (vs : List Text) → is_nil vs ≡ true → string_in_slice v vs ≡ false
  unfolding string_in_slice is_nil
  nil_lem v [] h = refl
  nil_lem v (x ∷ vs) h = absurd (cc h)

  no_prefix : trim_prefix [] (text "v") ≡ []
  unfolding text trim_prefix
  no_prefix = refl

  first_match-same :
      (v : Text) (vs : List Text)
      → first_match (λ ver. beq ver v) vs ≡ (if string_in_slice v vs then v else [])
  unfolding first_match string_in_slice
  first_match-same v [] = refl
  first_match-same v (x ∷ vs) = ground (arith, first_match-same v vs, beq_iff x v)

  -- Asked for one version of Kubernetes and for no release, the function answers with that version,
  -- without the prefix `v`, if it is supported, and with the empty text if not.
  pub rationalize_release_and_version-exact :
      (orch_ver : Text) (is_update has_windows : Bool)
      → is_empty (trim_prefix orch_ver (text "v")) ≡ false
      → rationalize_release_and_version s (text "Kubernetes") [] orch_ver is_update has_windows ≡ (
          if is_supported_kubernetes_version s
            (trim_prefix orch_ver (text "v"))
            is_update
            has_windows
          then trim_prefix orch_ver (text "v")
          else [])
  unfolding rationalize_release_and_version get_supported_versions is_supported_kubernetes_version
      rationalize
  rationalize_release_and_version-exact orch_ver is_update has_windows given =
      let v = trim_prefix orch_ver (text "v") in
      let vs = get_all_supported_kubernetes_versions s is_update has_windows in
      rw (beq_refl (text "Kubernetes")) (elim (Bool-cases (is_nil vs)) [
        | inl n ↦ rw (n, nil_lem v vs n) refl
        | inr n ↦ rw (n, rationalize, no_prefix, given) (first_match-same v vs)
      ])
