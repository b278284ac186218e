-- ===== src/Sig/Configured.antt =====
-- When the galleries of a configuration can be read, and what is built from them.
use agent_baker.Prelude.{
  false, ◌||◌, [], ◌∷◌, none, some, ◌≡◌, inl, inr, ◌↔◌, arith, if◌then◌else◌, Option-cases,
  Bool-cases,
}
use agent_baker.Prelude.Result.{ok, err, >>=-Passes}
use agent_baker.Text.{Text, text, equal_fold}
use agent_baker.GoMap.{GoMap}
use agent_baker.Datamodel.Gallery.{
  SigConfig, SigGalleryConfig, SigImageConfig, SigAzureEnvironmentSpecConfig,
}
use agent_baker.Cloud.Region
use agent_baker.Sig.{
  missing_values, gallery_not_found, gallery_of, move_to, get_sig_ubuntu_image_config_map_with_opts,
  get_sig_cbl_mariner_image_config_map_with_opts, get_sig_windows_image_config_map_with_opts,
  with_acs_sig_config, build_spec, get_sig_azure_cloud_spec_config,
}

-- The configuration that a successful call builds from its three galleries.
abbrev pub spec_of :
    SigConfig
    → Text
    → SigGalleryConfig
    → SigGalleryConfig
    → SigGalleryConfig
    → SigAzureEnvironmentSpecConfig
spec_of sig_config region ubuntu mariner windows = record {
  cloud_name = Region.get_cloud_target_env region;
  sig_tenant_id = sig_config.tenant_id;
  subscription_id = sig_config.subscription_id;
  sig_ubuntu_image_config =
      get_sig_ubuntu_image_config_map_with_opts (move_to sig_config ubuntu ∷ []);
  sig_cbl_mariner_image_config =
      get_sig_cbl_mariner_image_config_map_with_opts (move_to sig_config mariner ∷ []);
  sig_windows_image_config =
      get_sig_windows_image_config_map_with_opts (move_to sig_config windows ∷ []);
}

-- What a successful call found in the configuration it was given.
pub record Configured (sig_config : SigConfig) (region : Text) (c : SigAzureEnvironmentSpecConfig)
    : Type 0 where
  pub ubuntu : SigGalleryConfig
  pub mariner : SigGalleryConfig
  pub windows : SigGalleryConfig
  pub has_ubuntu : gallery_of sig_config (text "AKSUbuntu") ≡ some ubuntu
  pub has_mariner : gallery_of sig_config (text "AKSCBLMariner") ≡ some mariner
  pub has_windows : gallery_of sig_config (text "AKSWindows") ≡ some windows
  pub has_subscription : equal_fold sig_config.subscription_id [] ≡ false
  pub has_tenant : equal_fold sig_config.tenant_id [] ≡ false
  pub built : c ≡ spec_of sig_config region ubuntu mariner windows

module _ (sig_config : SigConfig) (os_sku : Text) where
  with_acs_sig_config-some :
      {g : SigGalleryConfig}
      → gallery_of sig_config os_sku ≡ some g
      → with_acs_sig_config sig_config os_sku ≡ ok (move_to sig_config g)
  unfolding with_acs_sig_config
  with_acs_sig_config-some e = rw (e, with_acs_sig_config)

  with_acs_sig_config-none :
      gallery_of sig_config os_sku ≡ none
      → with_acs_sig_config sig_config os_sku ≡ err (gallery_not_found os_sku)
  unfolding with_acs_sig_config
  with_acs_sig_config-none e = rw (e, with_acs_sig_config)

  with_acs_sig_config-eq-ok :
      {o : SigImageConfig → SigImageConfig}
      → with_acs_sig_config sig_config os_sku ≡ ok o
      → (g : SigGalleryConfig) × (gallery_of sig_config os_sku ≡ some g)
        × (move_to sig_config g ≡ o)
  with_acs_sig_config-eq-ok h = elim (Option-cases (gallery_of sig_config os_sku)) [
    | inl e ↦ absurd (cc (with_acs_sig_config-none e))
    | inr (g, e) ↦ (g, e, cc (with_acs_sig_config-some e))
  ]

build_spec_sound :
    (sig_config : SigConfig) (region : Text) {c : SigAzureEnvironmentSpecConfig}
    → equal_fold sig_config.subscription_id [] ≡ false
    → equal_fold sig_config.tenant_id [] ≡ false
    → build_spec sig_config region ≡ ok c
    → Configured sig_config region c
unfolding build_spec
build_spec_sound sig_config region s t h =
    let first = >>=-Passes (with_acs_sig_config sig_config (text "AKSUbuntu")) _ h in
    let second =
      >>=-Passes (with_acs_sig_config sig_config (text "AKSCBLMariner")) _ first.continued in
    let third =
      >>=-Passes (with_acs_sig_config sig_config (text "AKSWindows")) _ second.continued in
    let (u, hu, eu) = with_acs_sig_config-eq-ok sig_config _ first.returned in
    let (m, hm, em) = with_acs_sig_config-eq-ok sig_config _ second.returned in
    let (w, hw, ew) = with_acs_sig_config-eq-ok sig_config _ third.returned in
    record {
      ubuntu = u;
      mariner = m;
      windows = w;
      has_ubuntu = hu;
      has_mariner = hm;
      has_windows = hw;
      has_subscription = s;
      has_tenant = t;
      built = cc (third.continued, eu, em, ew);
    }

build_spec_complete :
    {sig_config : SigConfig} {region : Text} {c : SigAzureEnvironmentSpecConfig}
    → Configured sig_config region c
    → build_spec sig_config region ≡ ok c
unfolding build_spec
build_spec_complete {sig_config} {region} {c} f = rw (
  with_acs_sig_config-some sig_config (text "AKSUbuntu") f.has_ubuntu,
  with_acs_sig_config-some sig_config (text "AKSCBLMariner") f.has_mariner,
  with_acs_sig_config-some sig_config (text "AKSWindows") f.has_windows,
  f.built,
)

module _ (sig_config : SigConfig) (region : Text) where
  get_without_galleries :
      sig_config.galleries ≡ none
      → get_sig_azure_cloud_spec_config sig_config region ≡ err missing_values
  unfolding get_sig_azure_cloud_spec_config
  get_without_galleries e = rw (e, get_sig_azure_cloud_spec_config)

  get_with_galleries :
      {g : GoMap SigGalleryConfig}
      → sig_config.galleries ≡ some g
      → get_sig_azure_cloud_spec_config sig_config region ≡ (
          if equal_fold sig_config.subscription_id [] || equal_fold sig_config.tenant_id []
          then err missing_values
          else build_spec sig_config region)
  unfolding get_sig_azure_cloud_spec_config
  get_with_galleries e = ground arith

  gallery_of_nothing :
      (os_sku : Text) → sig_config.galleries ≡ none → gallery_of sig_config os_sku ≡ none
  unfolding gallery_of
  gallery_of_nothing os_sku e = rw (e, gallery_of)

  pub get_sound :
      {c : SigAzureEnvironmentSpecConfig}
      → get_sig_azure_cloud_spec_config sig_config region ≡ ok c
      → Configured sig_config region c
  get_sound h = elim (Option-cases sig_config.galleries) [
    | inl e ↦ absurd (cc (get_without_galleries e))
    | inr (g, e) ↦ elim (Bool-cases (equal_fold sig_config.subscription_id [])) [
      | inl s ↦ absurd (ground (arith, get_with_galleries e))
      | inr s ↦ elim (Bool-cases (equal_fold sig_config.tenant_id [])) [
        | inl t ↦ absurd (ground (arith, get_with_galleries e))
        | inr t ↦ build_spec_sound sig_config region s t (ground (arith, get_with_galleries e))
      ]
    ]
  ]

  get_complete :
      {c : SigAzureEnvironmentSpecConfig}
      → Configured sig_config region c
      → get_sig_azure_cloud_spec_config sig_config region ≡ ok c
  get_complete f = elim (Option-cases sig_config.galleries) [
    | inl e ↦ absurd (cc (f.has_ubuntu, gallery_of_nothing (text "AKSUbuntu") e))
    | inr (g, e) ↦
        rw (get_with_galleries e, f.has_subscription, f.has_tenant) (build_spec_complete f)
  ]

-- A call succeeds exactly when the configuration has a subscription, a tenant and the three
-- galleries, and then its result is the one built from them.
pub get_sig_azure_cloud_spec_config_iff :
    (sig_config : SigConfig) (region : Text) (c : SigAzureEnvironmentSpecConfig)
    → (get_sig_azure_cloud_spec_config sig_config region ≡ ok c) ↔ Configured sig_config region c
get_sig_azure_cloud_spec_config_iff sig_config region c =
    (get_sound sig_config region, get_complete sig_config region)
