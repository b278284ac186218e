-- ===== src/Methods/Cluster/Environment.antt =====
-- pkg/agent/datamodel/types.go: what `GetCustomEnvironmentJSON` leaves of the properties.
use agent_baker.Prelude.{Bool, ◌≡◌, refl, Option, none, some, Bool-cases, inl, inr}
use agent_baker.Prelude.Result.{Result}
use agent_baker.Text.{Text, text}
use agent_baker.Datamodel.Cloud.{CustomCloudEnv}
use agent_baker.Datamodel.Cluster.{Properties}
use agent_baker.Methods.Cluster.{
  get_custom_environment_json, is_aks_custom_cloud, renamed, env_name,
}

renamed_back :
    (env : Option CustomCloudEnv) (name : Text) → renamed (renamed env name) (env_name env) ≡ env
renamed_back none name = refl
renamed_back (some env) name = refl

-- The name that the environment has while it is serialised does not stay: whatever
-- `json.Marshal` answers, the properties are afterwards what they were.
pub get_custom_environment_json-restores :
    (json_marshal : CustomCloudEnv → Result Text Text) (p : Properties) (escape : Bool)
    → (get_custom_environment_json json_marshal p escape).1 ≡ p
unfolding get_custom_environment_json
get_custom_environment_json-restores json_marshal p escape =
    elim (Bool-cases (is_aks_custom_cloud p)) [
      | inl e ↦ rw (e, renamed_back p.custom_cloud_env (text "AzureStackCloud"))
      | inr e ↦ rw e
    ]
