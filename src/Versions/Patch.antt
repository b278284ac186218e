-- ===== src/Versions/Patch.antt =====
-- `GetValidPatchVersion` and the minor version that it is asked for.
use agent_baker.Prelude.{
  ℕ, Bool, true, false, List, [], ◌∷◌, ◌++◌, ◌≡◌, refl, ap, sym, ◌∙◌, arith, inl, inr, Bool-cases,
  ◌⊎◌, ◌==◌, append_assoc, All,
}
use agent_baker.Prelude.Int.{pos}
use agent_baker.Text.{Text, text, is_empty, trim_prefix, has_prefix, split, join, string_in_slice}
use agent_baker.Text.Equality.{beq_iff, beq_refl}
use agent_baker.Text.Number.{is_digit, format_int, format_int-Lacks, format_int_injective}
use agent_baker.Text.Split.{split-join}
use agent_baker.Versions.Semver.{Semver}
use agent_baker.Versions.Latest.{latest_from-one}
use agent_baker.Versions.Rationalize.{rationalize_release_and_version-exact}
use agent_baker.Versions.Select.{
  is_nil, release, latest_from, rationalize, get_latest_patch_version,
  get_all_supported_kubernetes_versions, get_supported_versions, rationalize_release_and_version,
  get_valid_patch_version, is_supported_kubernetes_version,
}

-- A number, a period and a number are the two numbers.
dotted_injective :
    (a b c d : ℕ)
    → join (format_int (pos a) ∷ format_int (pos b) ∷ []) (b'.' ∷ [])
      ≡ join (format_int (pos c) ∷ format_int (pos d) ∷ []) (b'.' ∷ [])
    → (a ≡ c) × (b ≡ d)
unfolding is_digit
dotted_injective a b c d e =
    let parts =
      sym (
        split-join b'.' (format_int (pos a)) (format_int (pos b) ∷ [])
          (format_int-Lacks b'.' a refl) (format_int-Lacks b'.' b refl, tt))
      ∙ ap (λ t. split t b'.') e
      ∙ split-join b'.' (format_int (pos c)) (format_int (pos d) ∷ [])
          (format_int-Lacks b'.' c refl) (format_int-Lacks b'.' d refl, tt) in
    (format_int_injective a c (cc parts), format_int_injective b d (cc parts))

is_empty-dotted : (x y : Text) → is_empty (x ++ b'.' ∷ y) ≡ false
is_empty-dotted [] y = refl
is_empty-dotted (c ∷ x) y = refl

trim_prefix-other :
    (c : ℕ) (x y : Text)
    → (c == b'.') ≡ false
    → All (λ d. (d == c) ≡ false) x
    → trim_prefix (x ++ b'.' ∷ y) (c ∷ []) ≡ x ++ b'.' ∷ y
unfolding trim_prefix has_prefix
trim_prefix-other c [] y e h = ground arith
trim_prefix-other c (d ∷ x) y e (h, hs) = ground (arith, h)

module _ (s : Semver) where
  release_lem :
      (v : s.Version)
      → release s v ≡ format_int (pos (s.major v)) ++ b'.' ∷ format_int (pos (s.minor v))
  unfolding release text
  release_lem v =
      append_assoc (format_int (pos (s.major v))) (b'.' ∷ []) (format_int (pos (s.minor v)))

  -- The two versions have the same major and the same minor number.
  abbrev pub IsSameMinor : s.Version → s.Version → Type 0
  IsSameMinor a b = (s.major a ≡ s.major b) × (s.minor a ≡ s.minor b)

  release_injective : (a b : s.Version) → release s a ≡ release s b → IsSameMinor a b
  unfolding join
  release_injective a b e =
      dotted_injective (s.major a) (s.minor a) (s.major b) (s.minor b)
        (sym (release_lem a) ∙ e ∙ release_lem b)

  trim-release : (v : s.Version) → trim_prefix (release s v) (text "v") ≡ release s v
  unfolding text is_digit
  trim-release v = rw (release_lem v) (
      trim_prefix-other b'v' (format_int (pos (s.major v))) (format_int (pos (s.minor v))) refl
        (format_int-Lacks b'v' (s.major v) refl))

  is_empty-release : (v : s.Version) → is_empty (release s v) ≡ false
  is_empty-release v = rw (release_lem v) (is_empty-dotted (format_int (pos (s.major v))) _)

  given_lem : (t : Text) → is_empty (trim_prefix t (text "v")) ≡ false → is_empty t ≡ false
  unfolding trim_prefix has_prefix text
  given_lem [] h = h
  given_lem (c ∷ t) h = refl

  nil_latest :
      (major_minor : Text) (vs : List Text)
      → is_nil vs ≡ true
      → get_latest_patch_version s major_minor vs ≡ []
  unfolding get_latest_patch_version latest_from is_nil
  nil_latest major_minor [] h = refl
  nil_latest major_minor (v ∷ vs) h = absurd (cc h)

  -- Asked for a release alone, the function searches the supported versions for its latest.
  rationalize-release :
      (v : s.Version) (is_update has_windows : Bool)
      → rationalize_release_and_version s (text "Kubernetes") (release s v) [] is_update has_windows
        ≡ get_latest_patch_version s
            (release s v)
            (get_all_supported_kubernetes_versions s is_update has_windows)
  unfolding rationalize_release_and_version get_supported_versions rationalize
  rationalize-release v is_update has_windows =
      let vs = get_all_supported_kubernetes_versions s is_update has_windows in
      let no_prefix : trim_prefix [] (text "v") ≡ [] = unfold trim_prefix has_prefix text in refl in
      rw (beq_refl (text "Kubernetes")) (elim (Bool-cases (is_nil vs)) [
        | inl n ↦ rw (n, nil_latest (release s v) vs n) refl
        | inr n ↦ rw (n, trim-release v, rationalize, no_prefix, is_empty-release v) refl
      ])

  latest-IsSameMinor :
      (v : s.Version) (vs : List Text)
      → (get_latest_patch_version s (release s v) vs ≡ [])
        ⊎ ((string_in_slice (get_latest_patch_version s (release s v) vs) vs ≡ true)
            × IsSameMinor (s.make (get_latest_patch_version s (release s v) vs)) v)
  unfolding get_latest_patch_version
  latest-IsSameMinor v vs = elim (latest_from-one s (release s v) [] vs) [
    | inl e ↦ inl e
    | inr (listed, of) ↦ inr (listed, release_injective _ v ((beq_iff _ (release s v)).0 of))
  ]

  module _ (orch_ver : Text) (is_update has_windows : Bool) where
    abbrev asked : Text
    asked = trim_prefix orch_ver (text "v")

    abbrev is_supported : Text → Bool
    is_supported v = is_supported_kubernetes_version s v is_update has_windows

    abbrev latest : Text
    latest =
        get_latest_patch_version s (release s (s.make orch_ver))
          (get_all_supported_kubernetes_versions s is_update has_windows)

    -- The version itself if it is supported; nothing if it is not and cannot be read; else the
    -- latest that is supported with the same major and minor number, if there is one.
    abbrev pub IsAnswer : Text → Type 0
    IsAnswer version =
        ((is_supported asked ≡ true) × (version ≡ asked))
        ⊎ ((is_supported asked ≡ false) × (s.is_valid orch_ver ≡ false) × (version ≡ []))
        ⊎ ((is_supported asked ≡ false)
            × (s.is_valid orch_ver ≡ true)
            × (version ≡ latest)
            × ((version ≡ [])
                ⊎ ((is_supported version ≡ true) × IsSameMinor (s.make version) (s.make orch_ver))))

    -- Asked for a version of Kubernetes that is not empty without its prefix `v`,
    -- `GetValidPatchVersion` answers with that version, without the prefix, if it is supported. If
    -- not, it answers with the empty text where the version cannot be read, and else with what
    -- `GetLatestPatchVersion` finds among the supported versions: the empty text, or a supported
    -- version of the same major and minor number.
    pub get_valid_patch_version_lem :
        is_empty asked ≡ false
        → IsAnswer (get_valid_patch_version s (text "Kubernetes") orch_ver is_update has_windows)
    unfolding get_valid_patch_version
    get_valid_patch_version_lem given =
        let exact = rationalize_release_and_version-exact s orch_ver is_update has_windows given in
        let searched = rationalize-release (s.make orch_ver) is_update has_windows in
        elim (Bool-cases (is_supported asked)) [
          | inl e ↦ inl (e, rw (given_lem orch_ver given, exact, e, given) refl)
          | inr e ↦ elim (Bool-cases (s.is_valid orch_ver)) [
            | inr bad ↦ inr (inl (e, bad, rw (given_lem orch_ver given, exact, e, bad) refl))
            | inl good ↦
                rw (given_lem orch_ver given, exact, e, good, searched)
                  (inr (
                    inr (
                      refl,
                      refl,
                      refl,
                      unfold is_supported_kubernetes_version in
                          latest-IsSameMinor (s.make orch_ver)
                            (get_all_supported_kubernetes_versions s is_update has_windows),
                    )))
          ]
        ]
