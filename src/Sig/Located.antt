-- ===== src/Sig/Located.antt =====
-- Where the images of a configuration lie.
use agent_baker.Prelude.{[], ◌∷◌, some, ◌≡◌, ◌⊎◌, inl, inr, refl, arith, Bool-cases}
use mathlib.Core.Path.{subst}
use agent_baker.Prelude.Result.{ok}
use agent_baker.Text.{Text, text, beq}
use agent_baker.GoMap.{GoMap, lookup}
use agent_baker.Datamodel.Distro.{Distro}
use agent_baker.Datamodel.Gallery.{
  SigConfig, SigGalleryConfig, SigImageConfig, SigImageConfigTemplate,
  SigAzureEnvironmentSpecConfig,
}
use agent_baker.Sig.{
  with_options, gallery_of, move_to, get_sig_ubuntu_image_config_map_with_opts,
  get_sig_cbl_mariner_image_config_map_with_opts, get_sig_windows_image_config_map_with_opts,
  get_sig_azure_cloud_spec_config, find_sig_image_config,
}
use agent_baker.Sig.Configured.{spec_of, get_sound}

-- `image` has the subscription of the configuration and stands in the given gallery.
pub record IsIn (sig_config : SigConfig) (g : SigGalleryConfig) (image : SigImageConfig)
    : Type 0 where
  pub subscription : image.subscription_id ≡ sig_config.subscription_id
  pub gallery : image.sig_image_config_template.gallery ≡ g.gallery_name
  pub resource_group : image.sig_image_config_template.resource_group ≡ g.resource_group

module _ {V : Type 0} (P : V → Type 0) where
  abbrev AllValues : GoMap V → Type 0
  AllValues [] = Unit
  AllValues ((k, v) ∷ m) = P v × AllValues m

  lookup-AllValues : (m : GoMap V) (k : Text) {v : V} → AllValues m → lookup m k ≡ some v → P v
  unfolding lookup
  lookup-AllValues [] k h e = absurd (cc)
  lookup-AllValues ((j, w) ∷ m) k {v} h e = elim (Bool-cases (beq j k)) [
    | inl same ↦ let e' : some w ≡ some v = rw same at e in subst P (cc e') h.0
    | inr other ↦ lookup-AllValues m k h.1 (rw other at e)
  ]

module _ (sig_config : SigConfig) (g : SigGalleryConfig) where
  moved-IsIn :
      (template : SigImageConfigTemplate)
      → IsIn sig_config g (with_options template (move_to sig_config g ∷ []))
  unfolding with_options move_to
  moved-IsIn template = record { subscription = refl; gallery = refl; resource_group = refl }

  ubuntu-IsIn :
      AllValues
        (IsIn sig_config g)
        (get_sig_ubuntu_image_config_map_with_opts (move_to sig_config g ∷ []))
  unfolding get_sig_ubuntu_image_config_map_with_opts
  ubuntu-IsIn = (
    moved-IsIn _,
    (
      moved-IsIn _,
      (
        moved-IsIn _,
        (
          moved-IsIn _,
          (
            moved-IsIn _,
            (
              moved-IsIn _,
              (
                moved-IsIn _,
                (
                  moved-IsIn _,
                  (
                    moved-IsIn _,
                    (moved-IsIn _, (moved-IsIn _, (moved-IsIn _, (moved-IsIn _, tt)))),
                  ),
                ),
              ),
            ),
          ),
        ),
      ),
    ),
  )

  mariner-IsIn :
      AllValues
        (IsIn sig_config g)
        (get_sig_cbl_mariner_image_config_map_with_opts (move_to sig_config g ∷ []))
  unfolding get_sig_cbl_mariner_image_config_map_with_opts
  mariner-IsIn = (moved-IsIn _, tt)

  windows-IsIn :
      AllValues
        (IsIn sig_config g)
        (get_sig_windows_image_config_map_with_opts (move_to sig_config g ∷ []))
  unfolding get_sig_windows_image_config_map_with_opts
  windows-IsIn = (moved-IsIn _, (moved-IsIn _, tt))

find_sig_image_config-cases :
    (c : SigAzureEnvironmentSpecConfig) (distro : Distro) {image : SigImageConfig}
    → find_sig_image_config c distro ≡ some image
    → (lookup c.sig_ubuntu_image_config distro ≡ some image)
      ⊎ (lookup c.sig_cbl_mariner_image_config distro ≡ some image)
      ⊎ (lookup c.sig_windows_image_config distro ≡ some image)
unfolding find_sig_image_config
find_sig_image_config-cases c distro h = ground arith

-- The gallery of one of the three images, by the name it has in the configuration.
abbrev pub IsGallery : SigConfig → SigGalleryConfig → Type 0
IsGallery sig_config g =
    (gallery_of sig_config (text "AKSUbuntu") ≡ some g)
    ⊎ (gallery_of sig_config (text "AKSCBLMariner") ≡ some g)
    ⊎ (gallery_of sig_config (text "AKSWindows") ≡ some g)

-- Every image that is found has the subscription of the configuration and lies in the gallery
-- that the configuration gives for Ubuntu, for CBLMariner or for Windows.
pub find_sig_image_config-IsIn :
    (sig_config : SigConfig) (region : Text) (distro : Distro) {c : SigAzureEnvironmentSpecConfig}
    {image : SigImageConfig}
    → get_sig_azure_cloud_spec_config sig_config region ≡ ok c
    → find_sig_image_config c distro ≡ some image
    → (g : SigGalleryConfig) × IsGallery sig_config g × IsIn sig_config g image
find_sig_image_config-IsIn sig_config region distro {c} {image} h found =
    let f = get_sound sig_config region h in
    let spec = spec_of sig_config region f.ubuntu f.mariner f.windows in
    elim (find_sig_image_config-cases spec distro (rw f.built at found)) [
      | inl u ↦ (
        f.ubuntu,
        inl f.has_ubuntu,
        lookup-AllValues _ spec.sig_ubuntu_image_config distro (ubuntu-IsIn sig_config f.ubuntu) u,
      )
      | inr (inl m) ↦ (
        f.mariner,
        inr (inl f.has_mariner),
        lookup-AllValues _ spec.sig_cbl_mariner_image_config distro
            (mariner-IsIn sig_config f.mariner) m,
      )
      | inr (inr w) ↦ (
        f.windows,
        inr (inr f.has_windows),
        lookup-AllValues _ spec.sig_windows_image_config distro (windows-IsIn sig_config f.windows)
            w,
      )
    ]
