-- ===== src/Template/Runtime/Choice.antt =====
-- pkg/agent/baker.go: what the entries on the container runtime say of one another.
use agent_baker.Prelude.{
  Bool, true, false, not, ◌||◌, [], ◌∷◌, ◌≡◌, refl, arith, Option, none, some, Bool-cases,
  Option-cases, inl, inr,
}
use agent_baker.Prelude.Panic.{◌>>=◌}
use agent_baker.Text.{Text, text, beq, is_empty, equal_fold, to_lower, lower}
use agent_baker.Text.Equality.{beq_iff, equal_fold_iff}
use agent_baker.Datamodel.Kubernetes.{KubernetesConfig, OrchestratorProfile}
use agent_baker.Datamodel.Bootstrapping.{NodeBootstrappingConfiguration}
use agent_baker.Methods.Kubernetes.{needs_containerd, requires_docker}
use agent_baker.Template.Access.{orchestrator_of}
use agent_baker.Template.Runtime.{
  runtime_override, template_needs_containerd, needs_docker, is_docker_container_runtime,
  template_requires_docker,
}

-- `!b` on a result that may be a panic
abbrev pub negated : Option Bool → Option Bool
negated answer = answer >>= λ b. some (not b)

folded_docker :
    (runtime : Text)
    → to_lower runtime ≡ to_lower (text "docker")
    → (equal_fold runtime (text "kata-containers") || equal_fold runtime (text "containerd"))
      ≡ false
unfolding equal_fold to_lower lower beq text
folded_docker runtime e = rw e

unnamed :
    (runtime : Text)
    → is_empty runtime ≡ true
    → (equal_fold runtime (text "kata-containers") || equal_fold runtime (text "containerd"))
      ≡ false
unfolding equal_fold to_lower lower beq text
unnamed [] h = refl
unnamed (c ∷ s) h = absurd (ground (arith, h))

required : (k : KubernetesConfig) → requires_docker (some k) ≡ true → needs_containerd k ≡ false
unfolding needs_containerd requires_docker
required k h = elim (Bool-cases (equal_fold k.container_runtime (text "docker"))) [
  | inl docker ↦
      folded_docker k.container_runtime
        ((equal_fold_iff k.container_runtime (text "docker")).0 docker)
  | inr other ↦ unnamed k.container_runtime (ground (arith, h, other))
]

named_docker :
    (k : KubernetesConfig)
    → beq k.container_runtime (text "docker") ≡ true
    → requires_docker (some k) ≡ true
unfolding requires_docker equal_fold to_lower lower beq text
named_docker k h = rw ((beq_iff k.container_runtime (text "docker")).0 h)

-- The entries agree with one another.
pub record IsConsistent (config : NodeBootstrappingConfiguration) : Type 0 where
  pub complement : needs_docker config ≡ negated (template_needs_containerd config)
  pub docker_required :
      is_docker_container_runtime config ≡ some true → template_requires_docker config ≡ some true
  pub required_needed :
      template_requires_docker config ≡ some true
      → (needs_docker config ≡ some true) × (template_needs_containerd config ≡ some false)

agree_override :
    (k : KubernetesConfig) (config : NodeBootstrappingConfiguration)
    → runtime_override config ≡ some k
    → IsConsistent config
unfolding template_needs_containerd needs_docker is_docker_container_runtime
    template_requires_docker
agree_override k config e = record {
  complement = rw e;
  docker_required = rw e λ h. ground (arith, h, named_docker k);
  required_needed = rw e λ h. ground (arith, h, required k);
}

agree_cluster :
    (o : OrchestratorProfile) (config : NodeBootstrappingConfiguration)
    → runtime_override config ≡ none
    → orchestrator_of config ≡ some o
    → IsConsistent config
unfolding template_needs_containerd needs_docker is_docker_container_runtime
    template_requires_docker requires_docker
agree_cluster o config e f = elim (Option-cases o.kubernetes_config) [
  | inl g ↦ record {
    complement = rw (e, f, g);
    docker_required = rw (e, f, g) λ h. ground (arith, h);
    required_needed = rw (e, f, g) λ h. ground (arith, h);
  }
  | inr (k, g) ↦ record {
    complement = rw (e, f, g);
    docker_required = rw (e, f, g) λ h. ground (arith, h, named_docker k);
    required_needed = rw (e, f, g) λ h. ground (arith, h, required k);
  }
]

-- For every configuration: docker is needed exactly where containerd is not, and both panic
-- together; a runtime named docker requires docker; and what requires docker needs it, so it does
-- not need containerd.
pub IsConsistent-runtime : (config : NodeBootstrappingConfiguration) → IsConsistent config
unfolding template_needs_containerd needs_docker is_docker_container_runtime
    template_requires_docker
IsConsistent-runtime config = elim (Option-cases (runtime_override config)) [
  | inr (k, e) ↦ agree_override k config e
  | inl e ↦ elim (Option-cases (orchestrator_of config)) [
    | inr (o, f) ↦ agree_cluster o config e f
    | inl f ↦ record {
      complement = rw (e, f);
      docker_required = rw (e, f) λ h. ground (arith, h);
      required_needed = rw (e, f) λ h. ground (arith, h);
    }
  ]
]
