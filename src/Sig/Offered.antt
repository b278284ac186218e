-- ===== src/Sig/Offered.antt =====
-- The distributions for which a configuration offers an image.
use agent_baker.Prelude.{◌||◌, List, [], ◌∷◌, is_some, ◌≡◌, refl, arith}
use agent_baker.Prelude.Result.{ok}
use agent_baker.Text.{Text, beq}
use agent_baker.Text.Equality.{beq_comm}
use agent_baker.GoMap.{GoMap, lookup, keys}
use agent_baker.Datamodel.Distro.{
  Distro, is_one_of, is_vhd_distro, aks_windows2019, aks_windows2019_containerd,
}
use agent_baker.Datamodel.Gallery.{SigConfig, SigAzureEnvironmentSpecConfig}
use agent_baker.Sig.{
  SigImageConfigOpt, get_sig_ubuntu_image_config_map_with_opts,
  get_sig_cbl_mariner_image_config_map_with_opts, get_sig_windows_image_config_map_with_opts,
  get_sig_azure_cloud_spec_config, find_sig_image_config,
}
use agent_baker.Sig.Configured.{get_sig_azure_cloud_spec_config_iff}

is_some-lookup :
    {V : Type 0} (m : GoMap V) (d : Distro) → is_some (lookup m d) ≡ is_one_of (keys m) d
unfolding lookup keys is_one_of
is_some-lookup [] d = refl
is_some-lookup ((k, v) ∷ m) d = rw (beq_comm d k) (ground (arith, is_some-lookup m d))

is_some-find_sig_image_config :
    (c : SigAzureEnvironmentSpecConfig) (d : Distro)
    → is_some (find_sig_image_config c d) ≡ (
        is_some (lookup c.sig_ubuntu_image_config d)
        || is_some (lookup c.sig_cbl_mariner_image_config d)
        || is_some (lookup c.sig_windows_image_config d))
unfolding find_sig_image_config
is_some-find_sig_image_config c d = ground arith

-- The distributions of the three maps are those with a VHD and two of Windows.
offered_list :
    (u m w : List SigImageConfigOpt) (d : Distro)
    → (is_one_of (keys (get_sig_ubuntu_image_config_map_with_opts u)) d
        || is_one_of (keys (get_sig_cbl_mariner_image_config_map_with_opts m)) d
        || is_one_of (keys (get_sig_windows_image_config_map_with_opts w)) d)
      ≡ (is_vhd_distro d || beq d aks_windows2019 || beq d aks_windows2019_containerd)
unfolding get_sig_ubuntu_image_config_map_with_opts get_sig_cbl_mariner_image_config_map_with_opts
    get_sig_windows_image_config_map_with_opts keys is_vhd_distro is_one_of
offered_list u m w d = ground arith

-- In a configuration that was built, an image is found for every distribution that is built as a
-- VHD and for the two Windows distributions of the gallery, and for no other name.
pub find_sig_image_config_offers :
    (sig_config : SigConfig) (region : Text) (d : Distro) {c : SigAzureEnvironmentSpecConfig}
    → get_sig_azure_cloud_spec_config sig_config region ≡ ok c
    → is_some (find_sig_image_config c d)
      ≡ (is_vhd_distro d || beq d aks_windows2019 || beq d aks_windows2019_containerd)
find_sig_image_config_offers sig_config region d {c} h =
    let f = (get_sig_azure_cloud_spec_config_iff sig_config region c).0 h in
    rw (is_some-find_sig_image_config c d, f.built, is_some-lookup, is_some-lookup, is_some-lookup)
      (offered_list _ _ _ d)
