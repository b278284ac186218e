-- ===== src/OsImage.antt =====
-- pkg/agent/datamodel/osimageconfig.go: the marketplace images of each cloud.
use agent_baker.Prelude.{[], ◌∷◌}
use agent_baker.Text.{text}
use agent_baker.GoMap.{GoMap}
use agent_baker.Datamodel.Cloud.{AzureOsImageConfig}
use agent_baker.Datamodel.Distro.{
  aks1604_deprecated, aks1804_deprecated, aks_ubuntu1604, aks_ubuntu1804, aks_ubuntu_containerd1804,
  aks_ubuntu_containerd1804_gen2, aks_windows2019_pir, rhel, ubuntu, ubuntu1804, ubuntu1804_gen2,
}
use agent_baker.Cloud.{
  azure_china_cloud, azure_german_cloud, azure_us_government_cloud, azure_public_cloud,
}

abbrev pub ubuntu1604_os_image_config : AzureOsImageConfig
ubuntu1604_os_image_config = record {
  image_offer = text "UbuntuServer";
  image_sku = text "16.04-LTS";
  image_publisher = text "Canonical";
  image_version = text "latest";
}

abbrev pub ubuntu1804_os_image_config : AzureOsImageConfig
ubuntu1804_os_image_config = record {
  image_offer = text "UbuntuServer";
  image_sku = text "18.04-LTS";
  image_publisher = text "Canonical";
  image_version = text "latest";
}

abbrev pub ubuntu1804_gen2_os_image_config : AzureOsImageConfig
ubuntu1804_gen2_os_image_config = record {
  image_offer = text "aks";
  image_sku = text "aks-ubuntu-1804-gen2-2021-q3";
  image_publisher = text "microsoft-aks";
  image_version = text "2021.08.14";
}

abbrev pub rhel_os_image_config : AzureOsImageConfig
rhel_os_image_config = record {
  image_offer = text "RHEL";
  image_sku = text "7.3";
  image_publisher = text "RedHat";
  image_version = text "latest";
}

abbrev pub aks_ubuntu1604_os_image_config : AzureOsImageConfig
aks_ubuntu1604_os_image_config = record {
  image_offer = text "aks";
  image_sku = text "aks-ubuntu-1604-2021-q3";
  image_publisher = text "microsoft-aks";
  image_version = text "2021.08.14";
}

abbrev pub aks_ubuntu1804_os_image_config : AzureOsImageConfig
aks_ubuntu1804_os_image_config = record {
  image_offer = text "aks";
  image_sku = text "aks-ubuntu-1804-2021-q3";
  image_publisher = text "microsoft-aks";
  image_version = text "2021.08.14";
}

abbrev pub aks_windows_server2019_os_image_config : AzureOsImageConfig
aks_windows_server2019_os_image_config = record {
  image_offer = text "aks-windows";
  image_sku = text "aks-2019-datacenter-core-smalldisk-2201";
  image_publisher = text "microsoft-aks";
  image_version = text "17763.2300.220121";
}

abbrev pub acc1604_os_image_config : AzureOsImageConfig
acc1604_os_image_config = record {
  image_offer = text "confidential-compute-preview";
  image_sku = text "16.04-LTS";
  image_publisher = text "Canonical";
  image_version = text "latest";
}

abbrev pub aks_ubuntu_containerd1804_os_image_config : AzureOsImageConfig
aks_ubuntu_containerd1804_os_image_config = record {
  image_offer = text "aks-aez";
  image_sku = text "aks-ubuntu-containerd-1804-2022-q1";
  image_publisher = text "microsoft-aks";
  image_version = text "2022.01.21";
}

abbrev pub aks_ubuntu_containerd1804_gen2_os_image_config : AzureOsImageConfig
aks_ubuntu_containerd1804_gen2_os_image_config = record {
  image_offer = text "aks-aez";
  image_sku = text "aks-ubuntu-containerd-1804-gen2-2021-q2";
  image_publisher = text "microsoft-aks";
  image_version = text "2021.05.01";
}

abbrev azure_china_cloud_images : GoMap AzureOsImageConfig
azure_china_cloud_images =
    (ubuntu, ubuntu1604_os_image_config)
    ∷ (ubuntu1804, ubuntu1804_os_image_config)
    ∷ (ubuntu1804_gen2, ubuntu1804_gen2_os_image_config)
    ∷ (rhel, rhel_os_image_config)
    ∷ (aks_ubuntu1604, aks_ubuntu1604_os_image_config)
    ∷ (aks1604_deprecated, aks_ubuntu1604_os_image_config)
    ∷ (aks_ubuntu1804, aks_ubuntu1804_os_image_config)
    ∷ (aks1804_deprecated, aks_ubuntu1804_os_image_config)
    ∷ (aks_windows2019_pir, aks_windows_server2019_os_image_config)
    ∷ []

abbrev azure_german_cloud_images : GoMap AzureOsImageConfig
azure_german_cloud_images =
    (ubuntu, ubuntu1604_os_image_config)
    ∷ (ubuntu1804, ubuntu1804_os_image_config)
    ∷ (ubuntu1804_gen2, ubuntu1804_gen2_os_image_config)
    ∷ (rhel, rhel_os_image_config)
    ∷ (aks_ubuntu1604, ubuntu1604_os_image_config)
    ∷ (aks1604_deprecated, ubuntu1604_os_image_config)
    ∷ (aks_ubuntu1804, ubuntu1604_os_image_config)
    ∷ (aks1804_deprecated, ubuntu1604_os_image_config)
    ∷ (aks_windows2019_pir, aks_windows_server2019_os_image_config)
    ∷ []

abbrev azure_us_government_cloud_images : GoMap AzureOsImageConfig
azure_us_government_cloud_images =
    (ubuntu, ubuntu1604_os_image_config)
    ∷ (ubuntu1804, ubuntu1804_os_image_config)
    ∷ (ubuntu1804_gen2, ubuntu1804_gen2_os_image_config)
    ∷ (rhel, rhel_os_image_config)
    ∷ (aks_ubuntu1604, aks_ubuntu1604_os_image_config)
    ∷ (aks1604_deprecated, aks_ubuntu1604_os_image_config)
    ∷ (aks_ubuntu1804, aks_ubuntu1804_os_image_config)
    ∷ (aks1804_deprecated, aks_ubuntu1804_os_image_config)
    ∷ (aks_windows2019_pir, aks_windows_server2019_os_image_config)
    ∷ []

abbrev azure_public_cloud_images : GoMap AzureOsImageConfig
azure_public_cloud_images =
    (ubuntu, ubuntu1604_os_image_config)
    ∷ (ubuntu1804, ubuntu1804_os_image_config)
    ∷ (ubuntu1804_gen2, ubuntu1804_gen2_os_image_config)
    ∷ (rhel, rhel_os_image_config)
    ∷ (aks_ubuntu1604, aks_ubuntu1604_os_image_config)
    ∷ (aks1604_deprecated, aks_ubuntu1604_os_image_config)
    ∷ (aks_ubuntu1804, aks_ubuntu1804_os_image_config)
    ∷ (aks1804_deprecated, aks_ubuntu1804_os_image_config)
    ∷ (aks_ubuntu_containerd1804, aks_ubuntu_containerd1804_os_image_config)
    ∷ (aks_ubuntu_containerd1804_gen2, aks_ubuntu_containerd1804_gen2_os_image_config)
    ∷ (aks_windows2019_pir, aks_windows_server2019_os_image_config)
    ∷ []

-- `AzureCloudToOSImageMap`
unfoldable pub azure_cloud_to_os_image_map : GoMap (GoMap AzureOsImageConfig)
azure_cloud_to_os_image_map =
    (azure_china_cloud, azure_china_cloud_images)
    ∷ (azure_german_cloud, azure_german_cloud_images)
    ∷ (azure_us_government_cloud, azure_us_government_cloud_images)
    ∷ (azure_public_cloud, azure_public_cloud_images)
    ∷ []
