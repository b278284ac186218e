-- ===== src/Kubelet/PowerShell/Bootstrap.antt =====
-- Whether a Windows node is told to bootstrap over TLS.
use agent_baker.Prelude.{◌||◌, ◌≡◌, refl, is_some, Bool-cases, inl, inr}
use agent_baker.Datamodel.Bootstrapping.{NodeBootstrappingConfiguration}
use agent_baker.Kubelet.Rewrite.{validate_and_set_windows}
use agent_baker.Kubelet.Rewrite.Windows.{validate_and_set_windows-BackfillsBootstrap}
use agent_baker.Kubelet.PowerShell.{needs_tls_boostraping}

-- After the rewriting for Windows a node bootstraps over TLS exactly if there is a token, or its
-- flags asked for it before.
pub needs_tls_boostraping-validate_and_set_windows :
    (config : NodeBootstrappingConfiguration)
    → needs_tls_boostraping (validate_and_set_windows config)
      ≡ (is_some config.kubelet_client_tls_bootstrap_token || needs_tls_boostraping config)
unfolding needs_tls_boostraping
needs_tls_boostraping-validate_and_set_windows config =
    let (flags', backfills, set) = validate_and_set_windows-BackfillsBootstrap config in
    elim (Bool-cases (is_some config.kubelet_client_tls_bootstrap_token)) [
      | inl e ↦ rw (set, e, backfills.kubeconfig) refl
      | inr e ↦ rw (set, e) refl
    ]
