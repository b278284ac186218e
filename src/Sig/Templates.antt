-- ===== src/Sig/Templates.antt =====
-- pkg/agent/datamodel/sig_config.go: the image templates of the shared image galleries.
use agent_baker.Datamodel.Gallery.{SigImageConfigTemplate}
use agent_baker.Text.{Text, text}

abbrev pub azure_public_cloud_sig_tenant_id : Text
azure_public_cloud_sig_tenant_id = text "33e01921-4d64-4f8c-a055-5bdaffd5e33d"

abbrev pub azure_public_cloud_sig_subscription : Text
azure_public_cloud_sig_subscription = text "109a5e88-712a-48ae-9078-9ca8b3c81345"

abbrev pub aks_windows_gallery_name : Text
aks_windows_gallery_name = text "AKSWindows"

abbrev pub aks_windows_resource_group : Text
aks_windows_resource_group = text "AKS-Windows"

abbrev pub aks_ubuntu_gallery_name : Text
aks_ubuntu_gallery_name = text "AKSUbuntu"

abbrev pub aks_ubuntu_resource_group : Text
aks_ubuntu_resource_group = text "AKS-Ubuntu"

abbrev pub aks_cbl_mariner_gallery_name : Text
aks_cbl_mariner_gallery_name = text "AKSCBLMariner"

abbrev pub aks_cbl_mariner_resource_group : Text
aks_cbl_mariner_resource_group = text "AKS-CBLMariner"

abbrev pub linux_sig_image_version : Text
linux_sig_image_version = text "2021.08.14"

abbrev pub windows_sig_image_version : Text
windows_sig_image_version = text "17763.2114.210811"

abbrev pub sig_ubuntu1604_image_config_template : SigImageConfigTemplate
sig_ubuntu1604_image_config_template = record {
  resource_group = aks_ubuntu_resource_group;
  gallery = aks_ubuntu_gallery_name;
  definition = text "1604";
  version = linux_sig_image_version;
}

abbrev pub sig_ubuntu1804_image_config_template : SigImageConfigTemplate
sig_ubuntu1804_image_config_template = record {
  resource_group = aks_ubuntu_resource_group;
  gallery = aks_ubuntu_gallery_name;
  definition = text "1804";
  version = linux_sig_image_version;
}

abbrev pub sig_ubuntu1804_gen2_image_config_template : SigImageConfigTemplate
sig_ubuntu1804_gen2_image_config_template = record {
  resource_group = aks_ubuntu_resource_group;
  gallery = aks_ubuntu_gallery_name;
  definition = text "1804gen2";
  version = linux_sig_image_version;
}

abbrev pub sig_ubuntu_gpu1804_image_config_template : SigImageConfigTemplate
sig_ubuntu_gpu1804_image_config_template = record {
  resource_group = aks_ubuntu_resource_group;
  gallery = aks_ubuntu_gallery_name;
  definition = text "1804gpu";
  version = linux_sig_image_version;
}

abbrev pub sig_ubuntu_gpu1804_gen2_image_config_template : SigImageConfigTemplate
sig_ubuntu_gpu1804_gen2_image_config_template = record {
  resource_group = aks_ubuntu_resource_group;
  gallery = aks_ubuntu_gallery_name;
  definition = text "1804gen2gpu";
  version = linux_sig_image_version;
}

abbrev pub sig_ubuntu_containerd1804_image_config_template : SigImageConfigTemplate
sig_ubuntu_containerd1804_image_config_template = record {
  resource_group = aks_ubuntu_resource_group;
  gallery = aks_ubuntu_gallery_name;
  definition = text "1804containerd";
  version = linux_sig_image_version;
}

abbrev pub sig_ubuntu_containerd1804_gen2_image_config_template : SigImageConfigTemplate
sig_ubuntu_containerd1804_gen2_image_config_template = record {
  resource_group = aks_ubuntu_resource_group;
  gallery = aks_ubuntu_gallery_name;
  definition = text "1804gen2containerd";
  version = linux_sig_image_version;
}

abbrev pub sig_ubuntu_gpu_containerd1804_image_config_template : SigImageConfigTemplate
sig_ubuntu_gpu_containerd1804_image_config_template = record {
  resource_group = aks_ubuntu_resource_group;
  gallery = aks_ubuntu_gallery_name;
  definition = text "1804gpucontainerd";
  version = linux_sig_image_version;
}

abbrev pub sig_ubuntu_gpu_containerd1804_gen2_image_config_template : SigImageConfigTemplate
sig_ubuntu_gpu_containerd1804_gen2_image_config_template = record {
  resource_group = aks_ubuntu_resource_group;
  gallery = aks_ubuntu_gallery_name;
  definition = text "1804gen2gpucontainerd";
  version = linux_sig_image_version;
}

abbrev pub sig_ubuntu_fips_containerd1804_image_config_template : SigImageConfigTemplate
sig_ubuntu_fips_containerd1804_image_config_template = record {
  resource_group = aks_ubuntu_resource_group;
  gallery = aks_ubuntu_gallery_name;
  definition = text "1804fipscontainerd";
  version = linux_sig_image_version;
}

abbrev pub sig_ubuntu_fips_containerd1804_gen2_image_config_template : SigImageConfigTemplate
sig_ubuntu_fips_containerd1804_gen2_image_config_template = record {
  resource_group = aks_ubuntu_resource_group;
  gallery = aks_ubuntu_gallery_name;
  definition = text "1804gen2fipscontainerd";
  version = linux_sig_image_version;
}

abbrev pub sig_ubuntu_fips_gpu_containerd1804_image_config_template : SigImageConfigTemplate
sig_ubuntu_fips_gpu_containerd1804_image_config_template = record {
  resource_group = aks_ubuntu_resource_group;
  gallery = aks_ubuntu_gallery_name;
  definition = text "1804fipsgpucontainerd";
  version = linux_sig_image_version;
}

abbrev pub sig_ubuntu_fips_gpu_containerd1804_gen2_image_config_template : SigImageConfigTemplate
sig_ubuntu_fips_gpu_containerd1804_gen2_image_config_template = record {
  resource_group = aks_ubuntu_resource_group;
  gallery = aks_ubuntu_gallery_name;
  definition = text "1804gen2fipsgpucontainerd";
  version = linux_sig_image_version;
}

abbrev pub sig_cbl_mariner_v1_image_config_template : SigImageConfigTemplate
sig_cbl_mariner_v1_image_config_template = record {
  resource_group = aks_cbl_mariner_resource_group;
  gallery = aks_cbl_mariner_gallery_name;
  definition = text "V1";
  version = linux_sig_image_version;
}

abbrev pub sig_windows2019_image_config_template : SigImageConfigTemplate
sig_windows2019_image_config_template = record {
  resource_group = aks_windows_resource_group;
  gallery = aks_windows_gallery_name;
  definition = text "windows-2019";
  version = windows_sig_image_version;
}

abbrev pub sig_windows2019_containerd_image_config_template : SigImageConfigTemplate
sig_windows2019_containerd_image_config_template = record {
  resource_group = aks_windows_resource_group;
  gallery = aks_windows_gallery_name;
  definition = text "windows-2019-containerd";
  version = windows_sig_image_version;
}
