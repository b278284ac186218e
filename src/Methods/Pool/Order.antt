-- ===== src/Methods/Pool/Order.antt =====
-- pkg/agent/datamodel/types.go: the node labels of a pool against the order of a Go map.
use agent_baker.Prelude.{Bool, [], ◌++◌, map, ◌≡◌, ap}
use mathlib.Core.Path.{fun_ext}
use agent_baker.Text.{Text, sort_strings, concat}
use agent_baker.GoMap.{GoMap, lookup, keys, HasUniqueKeys}
use agent_baker.GoMap.Keys.{get_or_lem, sort_strings-keys_same}
use agent_baker.Datamodel.Cluster.{AgentPoolProfile}
use agent_baker.Methods.Pool.{fixed_labels, format_label, get_kubernetes_labels}

module _ (k k' : GoMap Text) (unique : HasUniqueKeys k) (unique' : HasUniqueKeys k')
    (same : (key : Text) → lookup k key ≡ lookup k' key) where
  format_label_same : (key : Text) → format_label k key ≡ format_label k' key
  unfolding format_label
  format_label_same key = rw (get_or_lem k key [], get_or_lem k' key [], same key)

  custom_labels_same :
      concat (map (format_label k) (sort_strings (keys k)))
      ≡ concat (map (format_label k') (sort_strings (keys k')))
  custom_labels_same =
      rw (sort_strings-keys_same k k' unique unique' same, fun_ext format_label_same)

  -- Node labels do not depend on the order in which the map of the customer's labels is visited: a
  -- pool gives one text for two lists that stand for one map, each key once.
  pub get_kubernetes_labels_order :
      (a : AgentPoolProfile) (rg : Text) (deprecated nvidia_enabled fips_enabled : Bool)
      (os_sku : Text) (control_plane : Bool)
      → get_kubernetes_labels
          (record a { custom_node_labels = k })
          rg
          deprecated
          nvidia_enabled
          fips_enabled
          os_sku
          control_plane
        ≡ get_kubernetes_labels
            (record a { custom_node_labels = k' })
            rg
            deprecated
            nvidia_enabled
            fips_enabled
            os_sku
            control_plane
  unfolding get_kubernetes_labels fixed_labels
  get_kubernetes_labels_order a rg deprecated nvidia_enabled fips_enabled os_sku control_plane =
      ap (λ t. fixed_labels a rg deprecated nvidia_enabled fips_enabled os_sku control_plane ++ t)
        custom_labels_same
