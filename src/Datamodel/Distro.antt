-- ===== src/Datamodel/Distro.antt =====
-- pkg/agent/datamodel/types.go and sig_config.go: the distributions by name, the lists of those
-- that have a property, and the tests for it.
use agent_baker.Prelude.{Bool, false, ◌||◌, List, [], ◌∷◌}
use agent_baker.Text.{Text, text, beq}

abbrev pub Distro : Type 0
Distro = Text

abbrev pub ubuntu : Distro
ubuntu = text "ubuntu"

abbrev pub ubuntu1804 : Distro
ubuntu1804 = text "ubuntu-18.04"

abbrev pub ubuntu1804_gen2 : Distro
ubuntu1804_gen2 = text "ubuntu-18.04-gen2"

abbrev pub aks_ubuntu1804_gen2 : Distro
aks_ubuntu1804_gen2 = text "ubuntu-18.04-gen2"

abbrev pub aks_ubuntu1604 : Distro
aks_ubuntu1604 = text "aks-ubuntu-16.04"

abbrev pub aks_ubuntu1804 : Distro
aks_ubuntu1804 = text "aks-ubuntu-18.04"

abbrev pub aks_ubuntu_gpu1804 : Distro
aks_ubuntu_gpu1804 = text "aks-ubuntu-gpu-18.04"

abbrev pub aks_ubuntu_gpu1804_gen2 : Distro
aks_ubuntu_gpu1804_gen2 = text "aks-ubuntu-gpu-18.04-gen2"

abbrev pub aks_ubuntu_containerd1804 : Distro
aks_ubuntu_containerd1804 = text "aks-ubuntu-containerd-18.04"

abbrev pub aks_ubuntu_containerd1804_gen2 : Distro
aks_ubuntu_containerd1804_gen2 = text "aks-ubuntu-containerd-18.04-gen2"

abbrev pub aks_ubuntu_gpu_containerd1804 : Distro
aks_ubuntu_gpu_containerd1804 = text "aks-ubuntu-gpu-containerd-18.04"

abbrev pub aks_ubuntu_gpu_containerd1804_gen2 : Distro
aks_ubuntu_gpu_containerd1804_gen2 = text "aks-ubuntu-gpu-containerd-18.04-gen2"

abbrev pub aks_cbl_mariner_v1 : Distro
aks_cbl_mariner_v1 = text "aks-cblmariner-v1"

abbrev pub aks_ubuntu_fips_containerd1804 : Distro
aks_ubuntu_fips_containerd1804 = text "aks-ubuntu-fips-containerd-18.04"

abbrev pub aks_ubuntu_fips_containerd1804_gen2 : Distro
aks_ubuntu_fips_containerd1804_gen2 = text "aks-ubuntu-fips-containerd-18.04-gen2"

abbrev pub aks_ubuntu_fips_gpu_containerd1804 : Distro
aks_ubuntu_fips_gpu_containerd1804 = text "aks-ubuntu-fips-gpu-containerd-18.04"

abbrev pub aks_ubuntu_fips_gpu_containerd1804_gen2 : Distro
aks_ubuntu_fips_gpu_containerd1804_gen2 = text "aks-ubuntu-fips-gpu-containerd-18.04-gen2"

abbrev pub rhel : Distro
rhel = text "rhel"

abbrev pub coreos : Distro
coreos = text "coreos"

abbrev pub aks1604_deprecated : Distro
aks1604_deprecated = text "aks"

abbrev pub aks1804_deprecated : Distro
aks1804_deprecated = text "aks-1804"

abbrev pub aks_windows2019 : Distro
aks_windows2019 = text "aks-windows-2019"

abbrev pub aks_windows2019_containerd : Distro
aks_windows2019_containerd = text "aks-windows-2019-containerd"

abbrev pub aks_windows2019_pir : Distro
aks_windows2019_pir = text "aks-windows-2019-pir"

abbrev pub customized_windows_os_image : Distro
customized_windows_os_image = text "CustomizedWindowsOSImage"

-- The loops `for _, distro := range list { if d == distro { return true } }`.
unfoldable pub is_one_of : List Distro → Distro → Bool
is_one_of [] d = false
is_one_of (distro ∷ list) d = beq d distro || is_one_of list d

abbrev pub aks_distros_available_on_vhd : List Distro
aks_distros_available_on_vhd =
    aks_ubuntu1604 ∷ aks_ubuntu1804 ∷ aks_ubuntu1804_gen2 ∷ aks_ubuntu_gpu1804
    ∷ aks_ubuntu_gpu1804_gen2 ∷ aks_ubuntu_containerd1804 ∷ aks_ubuntu_containerd1804_gen2
    ∷ aks_ubuntu_gpu_containerd1804 ∷ aks_ubuntu_gpu_containerd1804_gen2 ∷ aks_cbl_mariner_v1
    ∷ aks_ubuntu_fips_containerd1804 ∷ aks_ubuntu_fips_containerd1804_gen2
    ∷ aks_ubuntu_fips_gpu_containerd1804 ∷ aks_ubuntu_fips_gpu_containerd1804_gen2 ∷ []

abbrev pub available_ubuntu1804_distros : List Distro
available_ubuntu1804_distros =
    aks_ubuntu1804 ∷ aks_ubuntu1804_gen2 ∷ aks_ubuntu_gpu1804 ∷ aks_ubuntu_gpu1804_gen2
    ∷ aks_ubuntu_containerd1804 ∷ aks_ubuntu_containerd1804_gen2 ∷ aks_ubuntu_gpu_containerd1804
    ∷ aks_ubuntu_gpu_containerd1804_gen2 ∷ aks_ubuntu_fips_containerd1804
    ∷ aks_ubuntu_fips_containerd1804_gen2 ∷ aks_ubuntu_fips_gpu_containerd1804
    ∷ aks_ubuntu_fips_gpu_containerd1804_gen2 ∷ []

abbrev pub available_containerd_distros : List Distro
available_containerd_distros =
    aks_ubuntu_containerd1804 ∷ aks_ubuntu_containerd1804_gen2 ∷ aks_ubuntu_gpu_containerd1804
    ∷ aks_ubuntu_gpu_containerd1804_gen2 ∷ aks_ubuntu_fips_containerd1804
    ∷ aks_ubuntu_fips_containerd1804_gen2 ∷ aks_ubuntu_fips_gpu_containerd1804
    ∷ aks_ubuntu_fips_gpu_containerd1804_gen2 ∷ aks_cbl_mariner_v1 ∷ []

abbrev pub available_gpu_distros : List Distro
available_gpu_distros =
    aks_ubuntu_gpu1804 ∷ aks_ubuntu_gpu1804_gen2 ∷ aks_ubuntu_gpu_containerd1804
    ∷ aks_ubuntu_gpu_containerd1804_gen2 ∷ aks_ubuntu_fips_gpu_containerd1804
    ∷ aks_ubuntu_fips_gpu_containerd1804_gen2 ∷ []

abbrev pub available_gen2_distros : List Distro
available_gen2_distros =
    aks_ubuntu1804_gen2 ∷ aks_ubuntu_gpu1804_gen2 ∷ aks_ubuntu_containerd1804_gen2
    ∷ aks_ubuntu_gpu_containerd1804_gen2 ∷ aks_ubuntu_fips_containerd1804_gen2
    ∷ aks_ubuntu_fips_gpu_containerd1804_gen2 ∷ []

abbrev pub available_cbl_mariner_distros : List Distro
available_cbl_mariner_distros = aks_cbl_mariner_v1 ∷ []

abbrev pub available_windows_sig_distros : List Distro
available_windows_sig_distros =
    aks_windows2019 ∷ aks_windows2019_containerd ∷ customized_windows_os_image ∷ []

abbrev pub available_windows_pir_distros : List Distro
available_windows_pir_distros = aks_windows2019_pir ∷ []

-- `IsVHDDistro`
unfoldable pub is_vhd_distro : Distro → Bool
unfolding is_one_of
is_vhd_distro = is_one_of aks_distros_available_on_vhd

-- `IsContainerdDistro`
unfoldable pub is_containerd_distro : Distro → Bool
unfolding is_one_of
is_containerd_distro = is_one_of available_containerd_distros

-- `IsGPUDistro`
unfoldable pub is_gpu_distro : Distro → Bool
unfolding is_one_of
is_gpu_distro = is_one_of available_gpu_distros

-- `IsGen2Distro`
unfoldable pub is_gen2_distro : Distro → Bool
unfolding is_one_of
is_gen2_distro = is_one_of available_gen2_distros

-- `IsCBLMarinerDistro`
unfoldable pub is_cbl_mariner_distro : Distro → Bool
unfolding is_one_of
is_cbl_mariner_distro = is_one_of available_cbl_mariner_distros

-- `IsWindowsSIGDistro`
unfoldable pub is_windows_sig_distro : Distro → Bool
unfolding is_one_of
is_windows_sig_distro = is_one_of available_windows_sig_distros

-- `IsWindowsPIRDistro`
unfoldable pub is_windows_pir_distro : Distro → Bool
unfolding is_one_of
is_windows_pir_distro = is_one_of available_windows_pir_distros
