-- ===== src/Kubelet/Rewrite/Windows.antt =====
-- The flags of a Windows node once its configuration has been rewritten.
use agent_baker.Prelude.{false, ◌≡◌, refl, Option, some, is_some, if◌then◌else◌}
use agent_baker.Text.{Text, text, beq}
use agent_baker.Text.Equality.{beq_refl}
use agent_baker.GoMap.{GoMap, lookup, insert}
use agent_baker.GoMap.Laws.{lookup-insert}
use agent_baker.Datamodel.Bootstrapping.{NodeBootstrappingConfiguration}
use agent_baker.Kubelet.Rewrite.{
  made, bootstrap_flags, validate_and_set_windows, is_kubelet_client_tls_bootstrapping_enabled,
}

-- `flags'` is `flags` with the two flags for TLS bootstrapping; a nil map has no flag.
pub record BackfillsBootstrap (flags : Option (GoMap Text)) (flags' : GoMap Text) : Type 0 where
  pub kubeconfig :
      lookup flags' (text "--bootstrap-kubeconfig") ≡ some (text "c:\\k\\bootstrap-config")
  pub directory : lookup flags' (text "--cert-dir") ≡ some (text "c:\\k\\pki")
  pub other_flags :
      (key : Text)
      → beq (text "--bootstrap-kubeconfig") key ≡ false
      → beq (text "--cert-dir") key ≡ false
      → lookup flags' key ≡ lookup (made flags) key

directory-kubeconfig : beq (text "--cert-dir") (text "--bootstrap-kubeconfig") ≡ false
unfolding beq text
directory-kubeconfig = refl

lookup-bootstrap_flags :
    (flags : Option (GoMap Text)) (key : Text)
    → lookup (bootstrap_flags flags) key ≡ (
        if beq (text "--cert-dir") key
        then some (text "c:\\k\\pki")
        else if beq (text "--bootstrap-kubeconfig") key
        then some (text "c:\\k\\bootstrap-config")
        else lookup (made flags) key)
unfolding bootstrap_flags
lookup-bootstrap_flags flags key =
    rw
      (
        lookup-insert
            (insert (made flags) (text "--bootstrap-kubeconfig") (text "c:\\k\\bootstrap-config"))
            (text "--cert-dir") key (text "c:\\k\\pki"),
        lookup-insert (made flags) (text "--bootstrap-kubeconfig") key
            (text "c:\\k\\bootstrap-config"),
      )
      refl

bootstrap_flags_lem :
    (flags : Option (GoMap Text)) → BackfillsBootstrap flags (bootstrap_flags flags)
bootstrap_flags_lem flags = record {
  kubeconfig =
      rw
        (
          lookup-bootstrap_flags flags (text "--bootstrap-kubeconfig"),
          directory-kubeconfig,
          beq_refl (text "--bootstrap-kubeconfig"),
        )
        refl;
  directory =
      rw (lookup-bootstrap_flags flags (text "--cert-dir"), beq_refl (text "--cert-dir")) refl;
  other_flags = λ key k d. rw (lookup-bootstrap_flags flags key, d, k) refl;
}

-- With a token for TLS bootstrapping the two flags are filled in, whatever they were and also
-- where there was no map of flags, and the others are kept; without one nothing changes.
pub validate_and_set_windows-BackfillsBootstrap :
    (config : NodeBootstrappingConfiguration)
    → (flags' : GoMap Text) × BackfillsBootstrap config.kubelet_config flags'
      × (validate_and_set_windows config ≡ (
          if is_some config.kubelet_client_tls_bootstrap_token
          then record config { kubelet_config = some flags' }
          else config))
unfolding validate_and_set_windows is_kubelet_client_tls_bootstrapping_enabled
validate_and_set_windows-BackfillsBootstrap config =
    (bootstrap_flags config.kubelet_config, bootstrap_flags_lem config.kubelet_config, refl)
