-- ===== src/Generator/Rules/Keys.antt =====
-- pkg/agent/utils.go: the public keys for PowerShell.
use agent_baker.Prelude.{
  true, false, ℕ, suc, ◌+◌, ◌-◌, List, [], ◌∷◌, append-nil, map, length, ltb, ◌≡◌, refl, arith,
  Option, none, some,
}
use agent_baker.Text.{text, join}
use agent_baker.Datamodel.Profiles.{PublicKey}
use agent_baker.Datamodel.Os.{LinuxProfile}
use agent_baker.Generator.Rules.{quoted_key, keys_from, get_ssh_public_keys_power_shell}

last_key : (i n : ℕ) → i + 1 ≡ n → ltb i (n - 1) ≡ false
last_key i n h = ground arith

inner_key : (i n r : ℕ) → i + suc (suc r) ≡ n → ltb i (n - 1) ≡ true
inner_key i n r h = ground arith

keys_from-join :
    (count i : ℕ) (public_keys : List PublicKey)
    → i + length public_keys ≡ count
    → keys_from count i public_keys ≡ join (map quoted_key public_keys) (text ", ")
unfolding keys_from join
keys_from-join count i [] h = refl
keys_from-join count i (key ∷ []) h = rw (last_key i count h, append-nil (quoted_key key))
keys_from-join count i (key ∷ other ∷ public_keys) h = rw (
  inner_key i count (length public_keys) h,
  keys_from-join count (suc i) (other ∷ public_keys) (omega (arith, h)),
)

abbrev public_keys_of : Option LinuxProfile → List PublicKey
public_keys_of none = []
public_keys_of (some linux_profile) = linux_profile.ssh.public_keys

-- The text is the list of quoted keys with commas between them, empty for a missing profile.
pub get_ssh_public_keys_power_shell-join :
    (linux_profile : Option LinuxProfile)
    → get_ssh_public_keys_power_shell linux_profile
      ≡ join (map quoted_key (public_keys_of linux_profile)) (text ", ")
unfolding get_ssh_public_keys_power_shell join
get_ssh_public_keys_power_shell-join none = refl
get_ssh_public_keys_power_shell-join (some linux_profile) =
    keys_from-join (length linux_profile.ssh.public_keys) 0 linux_profile.ssh.public_keys
      (omega arith)
