-- ===== src/Template/Network/SearchDomain.antt =====
-- pkg/agent/baker.go: `HasCustomSearchDomain` and the entries that read the domain.
use agent_baker.Prelude.{
  true, false, not, ◌≡◌, refl, arith, Option, none, some, Bool-cases, inl, inr, [], if◌then◌else◌,
}
use agent_baker.Prelude.Panic.{◌>>=◌}
use agent_baker.Text.{Text, is_empty}
use agent_baker.Datamodel.Profiles.{CustomSearchDomain}
use agent_baker.Datamodel.Os.{LinuxProfile}
use agent_baker.Datamodel.Cluster.{Properties}
use agent_baker.Methods.Profiles.{has_search_domain, is_search_domain_set}
use agent_baker.Template.Access.{properties_of}
use agent_baker.Datamodel.Bootstrapping.{NodeBootstrappingConfiguration}
use agent_baker.Template.Network.{
  has_domain, domain_field, field_of, has_custom_search_domain, get_search_domain_name,
  get_search_domain_realm_user, get_search_domain_realm_password,
}
use agent_baker.Template.Runtime.Directory.{is_set}

-- One of the three fields that make a search domain.
abbrev IsPart : (CustomSearchDomain → Text) → Type 0
IsPart field =
    (d : CustomSearchDomain) → is_search_domain_set (some d) ≡ true → is_empty (field d) ≡ false

set_field :
    (field : CustomSearchDomain → Text) (domain : Option CustomSearchDomain)
    → IsPart field
    → is_search_domain_set domain
      ≡ not (is_empty (if is_search_domain_set domain then field_of field domain else []))
set_field field none part = refl
set_field field (some d) part = elim (Bool-cases (is_search_domain_set (some d))) [
  | inl e ↦ rw (e, part d e)
  | inr e ↦ rw (e)
]

set_domain :
    (field : CustomSearchDomain → Text) (linux : Option LinuxProfile)
    → IsPart field
    → has_domain linux ≡ not (is_empty (domain_field field linux))
unfolding has_search_domain
set_domain field none part = refl
set_domain field (some linux) part = set_field field linux.custom_search_domain part

set_properties :
    (field : CustomSearchDomain → Text) (properties : Option Properties)
    → IsPart field
    → (properties >>= λ p. some (has_domain p.linux_profile))
      ≡ is_set (properties >>= λ p. some (domain_field field p.linux_profile))
set_properties field none part = refl
set_properties field (some p) part = rw (set_domain field p.linux_profile part)

-- For every configuration, `HasCustomSearchDomain` says exactly whether the name is set, whether
-- the user is set and whether the password is set, and panics where they do: the three stand
-- together or not at all.
pub has_custom_search_domain_lem :
    (config : NodeBootstrappingConfiguration)
    → (has_custom_search_domain config ≡ is_set (get_search_domain_name config))
      × (has_custom_search_domain config ≡ is_set (get_search_domain_realm_user config))
      × (has_custom_search_domain config ≡ is_set (get_search_domain_realm_password config))
unfolding has_custom_search_domain get_search_domain_name get_search_domain_realm_user
    get_search_domain_realm_password
has_custom_search_domain_lem config = (
  set_properties CustomSearchDomain.name (properties_of config) (λ d h. ground (arith, h)),
  set_properties CustomSearchDomain.realm_user (properties_of config) (λ d h. ground (arith, h)),
  set_properties CustomSearchDomain.realm_password (properties_of config)
      (λ d h. ground (arith, h)),
)
